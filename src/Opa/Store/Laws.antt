-- ===== src/Opa/Store/Laws.antt =====
-- The data store (store.go) as a function from tenants to configurations, and its invariant: no key
-- is stored twice.
use gql_firewall.Base.{
  ◌+◌, Bytes, [], ◌∷◌, none, some, ◌≡◌, ◌≢◌, ◌↔◌, inl, inr, refl, Map, HasKeysOnce,
  insert-HasKeysOnce, lookup, insert, delete, lookup-insert, lookup-delete, length, map, In, arith,
  bytes_equal, bytes_equal_iff, if◌then◌else◌, Bool-cases, Option-cases, ◌∙◌,
}
use gql_firewall.Opa.Json.{Json, Object}
use gql_firewall.Opa.Store.{
  DataStore, copy_into, get_params, set_tenant, delete_tenant, get_tenant, list_tenants,
  count_tenants,
}

module _ {V : Type 0} where
  delete-HasKeysOnce : (k : Bytes) (m : Map V) → HasKeysOnce m → HasKeysOnce (delete k m)
  unfolding delete lookup
  delete-HasKeysOnce k [] h = tt
  delete-HasKeysOnce k ((j, w) ∷ m) h = ground (arith, lookup-delete k j m, delete-HasKeysOnce k m)

  length-insert :
      (k : Bytes) (v : V) (m : Map V)
      → length (insert k v m) ≡ (elim (lookup k m) [ none ↦ length m + 1 | some w ↦ length m ])
  unfolding insert lookup
  length-insert k v [] = omega arith
  length-insert k v ((j, w) ∷ m) = ground (arith, length-insert k v m)

  delete_absent : (k : Bytes) (m : Map V) → lookup k m ≡ none → delete k m ≡ m
  unfolding delete lookup
  delete_absent k [] h = refl
  delete_absent k ((j, w) ∷ m) h = ground (arith, delete_absent k m)

  length-delete :
      (k : Bytes) (m : Map V)
      → HasKeysOnce m
      → length m
        ≡ (elim (lookup k m) [ none ↦ length (delete k m) | some w ↦ length (delete k m) + 1 ])
  unfolding delete lookup
  length-delete k [] h = refl
  length-delete k ((j, w) ∷ m) h =
      ground (arith, bytes_equal_iff j k, length-delete k m, delete_absent k m)

  pub In-keys : (k : Bytes) (m : Map V) → In k (map (λ e. e.0) m) → lookup k m ≢ none
  unfolding lookup
  In-keys k [] h = absurd h
  In-keys k ((j, w) ∷ m) (inl e) = ground (arith, bytes_equal_iff j k)
  In-keys k ((j, w) ∷ m) (inr h) = ground (arith, In-keys k m h)

  keys-In : (k : Bytes) (m : Map V) → lookup k m ≢ none → In k (map (λ e. e.0) m)
  unfolding lookup
  keys-In k [] h = absurd (h refl)
  keys-In k ((j, w) ∷ m) h = elim (Bool-cases (bytes_equal j k)) [
    | inl same ↦ inl ((bytes_equal_iff j k).0 same)
    | inr other ↦ inr (keys-In k m (λ e. h (rw (other, lookup) e)))
  ]

pub lookup-copy_into :
    (k : Bytes) (m cp : Map Json)
    → HasKeysOnce m
    → lookup k (copy_into cp m) ≡ (elim (lookup k m) [ none ↦ lookup k cp | some v ↦ some v ])
unfolding copy_into lookup
lookup-copy_into k [] cp h = refl
lookup-copy_into k ((j, w) ∷ m) cp h =
    ground
      (arith, bytes_equal_iff j k, lookup-copy_into k m (insert j w cp), lookup-insert j k w cp)

pub copy_into-HasKeysOnce : (m cp : Map Json) → HasKeysOnce cp → HasKeysOnce (copy_into cp m)
unfolding copy_into
copy_into-HasKeysOnce [] cp h = h
copy_into-HasKeysOnce ((k, w) ∷ m) cp h =
    copy_into-HasKeysOnce m (insert k w cp) (insert-HasKeysOnce k w cp h)

pub record IsValid (s : DataStore) : Type 0 where
  pub tenants : HasKeysOnce s.tenants
  pub params : (m : Map Json) → s.params ≡ some m → HasKeysOnce m

-- Setting and deleting a tenant keep every key of the store stored once.
pub set_delete-IsValid :
    (s : DataStore) (id : Bytes) (cfg : Object)
    → IsValid s
    → IsValid (set_tenant id cfg s) × IsValid (delete_tenant id s)
unfolding set_tenant delete_tenant
set_delete-IsValid s id cfg v = (
  record { tenants = insert-HasKeysOnce id cfg s.tenants v.tenants; params = v.params },
  record { tenants = delete-HasKeysOnce id s.tenants v.tenants; params = v.params },
)

-- The copy that `GetParams` returns has the entries of the stored parameters, and none for nil.
pub lookup-get_params :
    (s : DataStore) (k : Bytes)
    → IsValid s
    → lookup k (get_params s) ≡ (elim s.params [ none ↦ none | some m ↦ lookup k m ])
unfolding get_params
lookup-get_params s k v = elim (Option-cases s.params) [
  | inl nothing ↦ rw (nothing, get_params) (unfold lookup in refl)
  | inr (m, stored) ↦
      rw (stored, get_params)
        (lookup-copy_into k m [] (v.params m stored) ∙ unfold lookup in ground arith)
]

-- `GetTenant` after `SetTenant` and after `DeleteTenant`: the tenant named has the new configuration
-- or none, every other tenant keeps its own.
pub get_tenant_laws :
    (s : DataStore) (id other : Bytes) (cfg : Object)
    → (get_tenant other (set_tenant id cfg s)
        ≡ (if bytes_equal id other then cfg else get_tenant other s))
      × (get_tenant other (delete_tenant id s)
          ≡ (if bytes_equal id other then none else get_tenant other s))
unfolding get_tenant set_tenant delete_tenant
get_tenant_laws s id other cfg = (
  ground (arith, lookup-insert id other cfg s.tenants),
  ground (arith, lookup-delete id other s.tenants),
)

-- `CountTenants` grows by one exactly when a new tenant is set, and falls by one exactly when a stored
-- tenant is deleted.
count_tenants_laws :
    (s : DataStore) (id : Bytes) (cfg : Object)
    → IsValid s
    → (count_tenants (set_tenant id cfg s)
        ≡ (elim (lookup id s.tenants) [ none ↦ count_tenants s + 1 | some old ↦ count_tenants s ]))
      × (count_tenants s ≡ (elim (lookup id s.tenants) [
        | none ↦ count_tenants (delete_tenant id s)
        | some old ↦ count_tenants (delete_tenant id s) + 1
      ]))
unfolding count_tenants set_tenant delete_tenant
count_tenants_laws s id cfg v =
    (length-insert id cfg s.tenants, length-delete id s.tenants v.tenants)

-- `ListTenants` lists exactly the tenants that are stored.
pub list_tenants_iff :
    (s : DataStore) (id : Bytes) → In id (list_tenants s) ↔ (lookup id s.tenants ≢ none)
unfolding list_tenants
list_tenants_iff s id = (In-keys id s.tenants, keys-In id s.tenants)
