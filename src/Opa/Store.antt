-- ===== src/Opa/Store.antt =====
-- DataStore (store.go). Each method holds the lock from end to end, so it is one step on the state.
pub mod Laws
pub mod Spec
use gql_firewall.Base.{
  ℕ, Bytes, Bool, List, [], ◌∷◌, Option, none, some, Map, lookup, insert, delete, length, map,
}
use gql_firewall.Opa.Json.{Json, Object}

pub record DataStore : Type 0 where
  pub params : Object
  pub tenants : Map Object

abbrev pub new_data_store : DataStore
new_data_store = record { params = some []; tenants = [] }

unfoldable pub set_params : Object → DataStore → DataStore
set_params params s = record s { params = params }

-- `for k, v := range s.params { cp[k] = v }`
unfoldable pub copy_into : Map Json → Map Json → Map Json
copy_into cp [] = cp
copy_into cp ((k, v) ∷ m) = copy_into (insert k v cp) m

unfoldable pub get_params : DataStore → Map Json
unfolding copy_into
get_params s = elim s.params [ none ↦ [] | some m ↦ copy_into [] m ]

unfoldable pub set_tenant : Bytes → Object → DataStore → DataStore
set_tenant id cfg s = record s { tenants = insert id cfg s.tenants }

unfoldable pub delete_tenant : Bytes → DataStore → DataStore
delete_tenant id s = record s { tenants = delete id s.tenants }

-- A missing tenant gives the nil map.
unfoldable pub get_tenant : Bytes → DataStore → Object
get_tenant id s = elim (lookup id s.tenants) [ none ↦ none | some cfg ↦ cfg ]

-- Go ranges over a map in any order; this is one such order.
unfoldable pub list_tenants : DataStore → List Bytes
list_tenants s = map (λ e. e.0) s.tenants

unfoldable pub count_tenants : DataStore → ℕ
count_tenants s = length s.tenants

-- `json.Unmarshal(data, &params)` is the parameter; its error is `none`.
unfoldable pub load_params_from_json :
    (Bytes → Option Object) → Bytes → DataStore → Option DataStore
unfolding set_params
load_params_from_json unmarshal text s = elim (unmarshal text) [
  | none ↦ none
  | some params ↦ some (set_params params s)
]

-- The methods that change the store, as data.
pub data Change : Type 0 where
  new_params : Object → Change
  new_tenant : Bytes → Object → Change
  no_tenant : Bytes → Change

unfoldable pub apply_change : Change → DataStore → DataStore
unfolding set_params set_tenant delete_tenant
apply_change (new_params params) store = set_params params store
apply_change (new_tenant id cfg) store = set_tenant id cfg store
apply_change (no_tenant id) store = delete_tenant id store
