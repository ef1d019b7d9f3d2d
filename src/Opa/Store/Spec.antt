-- ===== src/Opa/Store/Spec.antt =====
-- DataStore (store.go) as two functions, and its methods on them.
use gql_firewall.Base.{
  Bytes, List, [], ◌∷◌, Option, none, some, All, In, lookup, lookup-insert, lookup-delete, Map,
  bytes_equal, HasKeysOnce, length, map, ◌≡◌, ◌≢◌, ◌↔◌, ◌∙◌, refl, ap, subst, arith, if◌then◌else◌,
}
use gql_firewall.Opa.Json.{Json, Object}
use gql_firewall.Opa.Store.{
  DataStore, new_data_store, set_params, get_params, get_tenant, list_tenants, count_tenants,
  Change, new_params, new_tenant, no_tenant, apply_change,
}
use gql_firewall.Opa.Store.Laws.{
  IsValid, set_delete-IsValid, lookup-get_params, list_tenants_iff, In-keys,
}

-- What each parameter is, and each tenant's configuration, if there is such a tenant.
pub record View : Type 0 where
  pub params : Bytes → Option Json
  pub tenants : Bytes → Option Object

abbrev pub empty_view : View
empty_view = record { params = λ key. none; tenants = λ id. none }

abbrev pub field_of : Object → Bytes → Option Json
field_of params key = elim params [ none ↦ none | some m ↦ lookup key m ]

abbrev pub change_view : Change → View → View
change_view (new_params params) v = record v { params = field_of params }
change_view (new_tenant id cfg) v = record v {
  tenants = λ other. if bytes_equal id other then some cfg else v.tenants other;
}
change_view (no_tenant id) v = record v {
  tenants = λ other. if bytes_equal id other then none else v.tenants other;
}

-- Changes one after the other, the first one first.
unfoldable pub apply_changes : List Change → DataStore → DataStore
apply_changes [] d = d
apply_changes (ch ∷ chs) d = apply_changes chs (apply_change ch d)

unfoldable pub change_views : List Change → View → View
change_views [] v = v
change_views (ch ∷ chs) v = change_views chs (change_view ch v)

-- Decoded parameters have each key once.
abbrev pub IsProper : Change → Type 0
IsProper (new_params (some m)) = HasKeysOnce m
IsProper ch = Unit

-- No name stands in the list twice.
abbrev pub IsDistinct : List Bytes → Type 0
IsDistinct [] = Unit
IsDistinct (id ∷ ids) = (¬ In id ids) × IsDistinct ids

-- The answers of the reading methods, from the two functions.
pub record Implements (d : DataStore) (v : View) : Type 0 where
  pub params : (key : Bytes) → lookup key (get_params d) ≡ v.params key
  pub config :
      (id : Bytes) → get_tenant id d ≡ (elim (v.tenants id) [ none ↦ none | some cfg ↦ cfg ])
  pub listed : (id : Bytes) → In id (list_tenants d) ↔ (v.tenants id ≢ none)
  pub counted : count_tenants d ≡ length (list_tenants d)
  pub once : IsDistinct (list_tenants d)

record Stores (d : DataStore) (v : View) : Type 0 where
  valid : IsValid d
  params : (key : Bytes) → field_of d.params key ≡ v.params key
  tenants : (id : Bytes) → lookup id d.tenants ≡ v.tenants id

length-map : {A B : Type 0} (f : A → B) (l : List A) → length l ≡ length (map f l)
length-map f [] = refl
length-map f (a ∷ l) = ground (arith, length-map f l)

HasKeysOnce-IsDistinct : {V : Type 0} (m : Map V) → HasKeysOnce m → IsDistinct (map (λ e. e.0) m)
HasKeysOnce-IsDistinct [] h = tt
HasKeysOnce-IsDistinct ((k, v) ∷ m) h =
    (λ again. In-keys k m again h.0, HasKeysOnce-IsDistinct m h.1)

Stores-Implements : (d : DataStore) (v : View) → Stores d v → Implements d v
unfolding get_tenant count_tenants list_tenants
Stores-Implements d v h = record {
  params = λ key. lookup-get_params d key h.valid ∙ h.params key;
  config = λ id. ap (λ (o : Option Object). elim o [ none ↦ none | some cfg ↦ cfg ]) (h.tenants id);
  listed =
      λ id. subst (λ o. In id (list_tenants d) ↔ (o ≢ none)) (h.tenants id) (list_tenants_iff d id);
  counted = length-map (λ e. e.0) d.tenants;
  once = HasKeysOnce-IsDistinct d.tenants h.valid.tenants;
}

IsValid-params :
    (params : Object) (d : DataStore)
    → IsProper (new_params params)
    → HasKeysOnce d.tenants
    → IsValid (record d { params = params })
IsValid-params none d proper once = record { tenants = once; params = λ m e. absurd (ground arith) }
IsValid-params (some m) d proper once = record {
  tenants = once;
  params = λ m' e. let same : m ≡ m' = cc in subst HasKeysOnce same proper;
}

apply_change-Stores :
    (ch : Change) (d : DataStore) (v : View)
    → IsProper ch
    → Stores d v
    → Stores (apply_change ch d) (change_view ch v)
unfolding apply_change set_params
apply_change-Stores (new_params params) d v proper h = record {
  valid = IsValid-params params d proper h.valid.tenants;
  params = λ key. refl;
  tenants = h.tenants;
}
apply_change-Stores (new_tenant id cfg) d v proper h = record {
  valid = (set_delete-IsValid d id cfg h.valid).0;
  params = h.params;
  tenants = λ other.
      lookup-insert id other cfg d.tenants
      ∙ ap (λ o. if bytes_equal id other then some cfg else o) (h.tenants other);
}
apply_change-Stores (no_tenant id) d v proper h = record {
  valid = (set_delete-IsValid d id none h.valid).1;
  params = h.params;
  tenants = λ other.
      lookup-delete id other d.tenants
      ∙ ap (λ o. if bytes_equal id other then none else o) (h.tenants other);
}

apply_changes-Stores :
    (chs : List Change) (d : DataStore) (v : View)
    → All IsProper chs
    → Stores d v
    → Stores (apply_changes chs d) (change_views chs v)
unfolding apply_changes change_views
apply_changes-Stores [] d v proper h = h
apply_changes-Stores (ch ∷ chs) d v proper h =
    apply_changes-Stores chs (apply_change ch d) (change_view ch v) proper.1
      (apply_change-Stores ch d v proper.0 h)

new_data_store-Stores : Stores new_data_store empty_view
unfolding lookup
new_data_store-Stores = record {
  valid = record {
    tenants = tt;
    params = λ m e. let same : [] ≡ m = cc in subst HasKeysOnce same tt;
  };
  params = λ key. refl;
  tenants = λ id. refl;
}

-- After any sequence of SetParams, SetTenant and DeleteTenant on a new store, where decoded parameters
-- have each key once, GetParams, GetTenant and ListTenants answer what the two functions say that the
-- same sequence makes of two functions that are none everywhere, each tenant is listed once, and
-- CountTenants is the length of the list.
pub apply_changes-Implements :
    (chs : List Change)
    → All IsProper chs
    → Implements (apply_changes chs new_data_store) (change_views chs empty_view)
apply_changes-Implements chs proper =
    Stores-Implements (apply_changes chs new_data_store) (change_views chs empty_view)
      (apply_changes-Stores chs new_data_store empty_view proper new_data_store-Stores)
