-- ===== src/Server/Admin.antt =====
-- adminMux (main.go): the handlers of the admin API and their routes. net/http's mux has cleaned the
-- path before. The decoder of bodies and the encoder of answers are parameters.
pub mod Laws
use gql_firewall.Base.{
  ℕ, Bytes, List, [], ◌∷◌, ◌++◌, insert, some, length, drop, is_empty, has_prefix, bytes_equal,
  if◌then◌else◌, codes,
}
use gql_firewall.Metrics.{Events, config_reloads, active_tenants}
use gql_firewall.Opa.Json.{Object}
use gql_firewall.Opa.Store.{
  DataStore, set_params, get_params, set_tenant, delete_tenant, get_tenant, list_tenants,
  count_tenants,
}
use gql_firewall.Proxy.Http.{get, post, put, delete, Body, Request, Response, http_error}
use gql_firewall.Server.Middleware.{require_admin_auth}

-- Where the evaluator keeps its parameters: nowhere for a sidecar, in the store of the API when `main`
-- starts an embedded evaluator, or in a store of its own.
pub data EvaluatorStore : Type 0 where
  sidecar : EvaluatorStore
  shared : EvaluatorStore
  separate : DataStore → EvaluatorStore

pub record AdminState : Type 0 where
  pub store : DataStore
  pub evaluator : EvaluatorStore
  pub events : Events

-- json.Decoder.Decode of an object from a body of at most the given size, with the error's text.
pub data Decoded : Type 0 where
  decoded : Object → Decoded
  invalid : Bytes → Decoded

pub record AdminLibrary : Type 0 where
  pub decode : ℕ → Body → Decoded
  pub encode_object : Object → Bytes
  pub encode_names : List Bytes → Bytes
  pub encode_stats : ℕ → Bytes

abbrev pub max_config_bytes : ℕ
max_config_bytes = 10485760

abbrev pub json_response : Bytes → Response
json_response body = record {
  status = 200;
  headers = insert (codes "Content-Type") (codes "application/json") [];
  body = body;
}

abbrev pub status_ok : Response
status_ok = json_response (codes "{\"status\":\"ok\"}\n")

-- `embedded.SetParams(params)`, if the evaluator is embedded.
unfoldable pub set_evaluator_params : Object → AdminState → AdminState
set_evaluator_params params s = elim s.evaluator [
  | sidecar ↦ s
  | shared ↦ record s { store = set_params params s.store }
  | separate store ↦ record s { evaluator = separate (set_params params store) }
]

-- `metrics.ActiveTenants.Set(float64(store.CountTenants()))`
abbrev pub gauge_tenants : AdminState → AdminState
gauge_tenants s = record s { events = s.events ++ active_tenants (count_tenants s.store) ∷ [] }

module _ (lib : AdminLibrary) where
  unfoldable pub get_rules : Request → AdminState → Response × AdminState
  get_rules r s = (json_response (lib.encode_object (some (get_params s.store))), s)

  abbrev pub apply_rules : Decoded → AdminState → Response × AdminState
  apply_rules (invalid e) s =
      (http_error [] (codes "{\"error\": \"invalid JSON: " ++ (e ++ codes "\"}")) 400, s)
  apply_rules (decoded params) s =
      let s' = set_evaluator_params params (record s { store = set_params params s.store }) in
      (status_ok, record s' { events = s'.events ++ config_reloads ∷ [] })

  unfoldable pub update_rules : Request → AdminState → Response × AdminState
  update_rules r s = elim r.method [
    | post ↦ apply_rules (lib.decode max_config_bytes r.body) s
    | put ↦ apply_rules (lib.decode max_config_bytes r.body) s
    | _ ↦ (http_error [] (codes "use POST or PUT") 405, s)
  ]

  unfoldable pub get_tenants : Request → AdminState → Response × AdminState
  get_tenants r s = (json_response (lib.encode_names (list_tenants s.store)), s)

  abbrev pub apply_tenant : Bytes → Decoded → AdminState → Response × AdminState
  apply_tenant id (invalid e) s = (http_error [] (codes "invalid JSON: " ++ e) 400, s)
  apply_tenant id (decoded cfg) s =
      (status_ok, gauge_tenants (record s { store = set_tenant id cfg s.store }))

  unfoldable pub tenant_by_method : Bytes → Request → AdminState → Response × AdminState
  tenant_by_method id r s = elim r.method [
    | get ↦ (json_response (lib.encode_object (get_tenant id s.store)), s)
    | post ↦ apply_tenant id (lib.decode max_config_bytes r.body) s
    | put ↦ apply_tenant id (lib.decode max_config_bytes r.body) s
    | delete ↦ (status_ok, gauge_tenants (record s { store = delete_tenant id s.store }))
    | _ ↦ (http_error [] (codes "method not allowed") 405, s)
  ]

  unfoldable pub handle_tenant : Request → AdminState → Response × AdminState
  unfolding tenant_by_method
  handle_tenant r s =
      let id = drop (length (codes "/admin/tenants/")) r.path in
      if is_empty id
      then (http_error [] (codes "tenant ID required") 400, s)
      else tenant_by_method id r s

  unfoldable pub get_stats : Request → AdminState → Response × AdminState
  get_stats r s = (json_response (lib.encode_stats (count_tenants s.store)), s)

  -- The routes; a path that has none is answered by net/http.
  unfoldable pub admin_mux : Bytes → Request → AdminState → Response × AdminState
  unfolding get_rules update_rules get_tenants handle_tenant get_stats
  admin_mux token r s =
      if bytes_equal r.path (codes "/admin/rules")
      then require_admin_auth token get_rules r s
      else if bytes_equal r.path (codes "/admin/rules/update")
      then require_admin_auth token update_rules r s
      else if bytes_equal r.path (codes "/admin/tenants")
      then require_admin_auth token get_tenants r s
      else if has_prefix r.path (codes "/admin/tenants/")
      then require_admin_auth token handle_tenant r s
      else if bytes_equal r.path (codes "/admin/stats")
      then require_admin_auth token get_stats r s
      else if bytes_equal r.path (codes "/admin/health")
      then (status_ok, s)
      else (http_error [] (codes "404 page not found") 404, s)
