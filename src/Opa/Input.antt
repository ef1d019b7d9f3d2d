-- ===== src/Opa/Input.antt =====
-- opa.Input and BuildInput (input.go). The `omitempty` tags belong to the encoding, which is outside.
use gql_firewall.Base.{
  ℕ, Bytes, Bool, false, List, [], ◌∷◌, Option, none, some, is_empty, if◌then◌else◌,
}
use gql_firewall.Parser.Info.{QueryInfo}
use gql_firewall.Opa.Json.{Object}
use gql_firewall.Opa.Store.{DataStore, get_params, get_tenant}

pub record Input : Type 0 where
  pub operation_type : Bytes
  pub operation_name : Bytes
  pub depth : ℕ
  pub field_count : ℕ
  pub field_paths : List Bytes
  pub tenant_id : Bytes
  pub directives : ℕ
  pub batch_size : ℕ
  pub argument_depth : ℕ
  pub lists_requested : ℕ
  pub fragment_spread_count : ℕ
  pub query_hash : Bytes
  pub variable_count : ℕ
  pub has_default_variables : Bool
  pub operation_directives : ℕ
  pub inline_fragment_types_count : ℕ
  pub fragment_count : ℕ
  pub request_variables : Object
  pub require_persisted_queries : Bool
  pub field_allowlist : List Bytes
  pub params : Object
  pub tenant_config : Object

-- The variables, if they are given and decode to an object.
unfoldable pub decode_variables : (Bytes → Option Object) → Bytes → Object
decode_variables unmarshal [] = none
decode_variables unmarshal (c ∷ text) = elim (unmarshal (c ∷ text)) [
  | none ↦ none
  | some vars ↦ vars
]

unfoldable pub store_params : Option DataStore → Object
unfolding get_params
store_params none = none
store_params (some s) = some (get_params s)

unfoldable pub store_tenant : Option DataStore → Bytes → Object
unfolding get_tenant
store_tenant none id = none
store_tenant (some s) id = if is_empty id then none else get_tenant id s

-- `json.Unmarshal` into an object is the parameter; a nil store is `none`.
unfoldable pub build_input : (Bytes → Option Object) → QueryInfo → Option DataStore → Input
unfolding decode_variables store_params store_tenant
build_input unmarshal info store = record {
  operation_type = info.operation_type;
  operation_name = info.operation_name;
  depth = info.depth;
  field_count = info.field_count;
  field_paths = info.field_paths;
  tenant_id = info.tenant_id;
  directives = info.directives;
  batch_size = info.batch_size;
  argument_depth = info.argument_depth;
  lists_requested = info.lists_requested;
  fragment_spread_count = info.fragment_spread_count;
  query_hash = info.query_hash;
  variable_count = info.variable_count;
  has_default_variables = info.has_default_variables;
  operation_directives = info.operation_directives;
  inline_fragment_types_count = info.inline_fragment_types_count;
  fragment_count = info.fragment_count;
  request_variables = decode_variables unmarshal info.request_variables;
  require_persisted_queries = false;
  field_allowlist = [];
  params = store_params store;
  tenant_config = store_tenant store info.tenant_id;
}
