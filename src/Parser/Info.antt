-- ===== src/Parser/Info.antt =====
-- parser.QueryInfo. Counters are `int` in the source; they count nodes of a parsed query, far below
-- 2 ^ 63, and are natural numbers here.
use gql_firewall.Base.{ℕ, Bytes, Bool, false, List, []}

pub record QueryInfo : Type 0 where
  pub operation_type : Bytes
  pub operation_name : Bytes
  pub depth : ℕ
  pub field_count : ℕ
  pub field_paths : List Bytes
  pub tenant_id : Bytes
  pub directives : ℕ
  pub batch_size : ℕ
  pub argument_depth : ℕ
  pub lists_requested : ℕ
  pub fragment_spread_count : ℕ
  pub query_hash : Bytes
  pub variable_count : ℕ
  pub has_default_variables : Bool
  pub operation_directives : ℕ
  pub inline_fragment_types_count : ℕ
  pub fragment_count : ℕ
  pub request_variables : Bytes

-- `&QueryInfo{}`
abbrev pub zero_info : QueryInfo
zero_info = record {
  operation_type = [];
  operation_name = [];
  depth = 0;
  field_count = 0;
  field_paths = [];
  tenant_id = [];
  directives = 0;
  batch_size = 0;
  argument_depth = 0;
  lists_requested = 0;
  fragment_spread_count = 0;
  query_hash = [];
  variable_count = 0;
  has_default_variables = false;
  operation_directives = 0;
  inline_fragment_types_count = 0;
  fragment_count = 0;
  request_variables = [];
}
