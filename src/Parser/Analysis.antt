-- ===== src/Parser/Analysis.antt =====
-- parseGraphQL (parse.go): every operation of the document is analysed on its own, and the report
-- takes the worst value of each metric.
pub mod Reports
pub mod Outcomes
pub mod Depth
pub mod Fields
use gql_firewall.Base.{
  hex, ◌==◌, ◌&&◌, ℕ, suc, ◌+◌, ◌/◌, ◌%◌, Bytes, Bool, true, false, List, [], ◌∷◌, ◌++◌, Option,
  none, some, length, ltb, ◌||◌, is_empty, if◌then◌else◌, codes, ◌>>=◌, take,
}
use gql_firewall.Parser.Ast.{
  absent, present, VariableDefinition, Operation, query, mutation, subscription, other,
  OperationDefinition, FragmentDefinition, QueryDocument, Library,
}
use gql_firewall.Parser.Info.{QueryInfo, zero_info}
use gql_firewall.Parser.Values.{worst}
use gql_firewall.Parser.Walk.{walk_selections}

pub data ParseError : Type 0 where
  empty_query parsing_query no_operations unnamed_operations out_of_fuel : ParseError

pub data Parsed : Type 0 where
  ok : QueryInfo → Parsed
  err : ParseError → Parsed

-- `switch op.Operation`
unfoldable pub operation_type : Operation → Bytes
operation_type query = codes "query"
operation_type mutation = codes "mutation"
operation_type subscription = codes "subscription"
operation_type (other kind) = codes "query"

-- The loop over the variable definitions, up to the first default value.
unfoldable pub has_default : List VariableDefinition → Bool
has_default [] = false
has_default (vd ∷ vds) = elim vd.default_value [ absent ↦ has_default vds | present v ↦ true ]

-- Directives on the fragment definitions themselves.
unfoldable pub fragment_directives : List FragmentDefinition → ℕ → ℕ
fragment_directives [] total = total
fragment_directives (f ∷ fs) total = fragment_directives fs (total + length f.directives)

unfoldable pub any_unnamed : List OperationDefinition → Bool
any_unnamed [] = false
any_unnamed (op ∷ ops) = is_empty op.name || any_unnamed ops

module _ (lib : Library) (doc : QueryDocument) where
  -- `currentInfo` before the walk.
  unfoldable pub operation_info : OperationDefinition → QueryInfo
  unfolding operation_type has_default
  operation_info op = record zero_info {
    operation_name = op.name;
    operation_type = operation_type op.operation;
    operation_directives = length op.directives;
    variable_count = length op.variable_definitions;
    has_default_variables = has_default op.variable_definitions;
  }

  -- One round of the loop over the operations, up to the aggregation.
  unfoldable pub operation_report : OperationDefinition → Option QueryInfo
  unfolding operation_info fragment_directives
  operation_report op =
      walk_selections lib doc.fragments (suc (length doc.fragments)) op.selection_set [] 0
        (record { info = operation_info op; visited = [] })
      >>= λ w.
          some (record w.info { directives = fragment_directives doc.fragments w.info.directives })

-- The aggregation: the first name and type, the worst of each metric, all paths.
unfoldable pub aggregate : QueryInfo → QueryInfo → QueryInfo
aggregate info current = record info {
  operation_name =
      if is_empty info.operation_name then current.operation_name else info.operation_name;
  operation_type =
      if is_empty info.operation_type then current.operation_type else info.operation_type;
  depth = worst info.depth current.depth;
  field_count = worst info.field_count current.field_count;
  directives = worst info.directives current.directives;
  argument_depth = worst info.argument_depth current.argument_depth;
  lists_requested = worst info.lists_requested current.lists_requested;
  fragment_spread_count = worst info.fragment_spread_count current.fragment_spread_count;
  variable_count = worst info.variable_count current.variable_count;
  operation_directives = worst info.operation_directives current.operation_directives;
  inline_fragment_types_count =
      worst info.inline_fragment_types_count current.inline_fragment_types_count;
  has_default_variables =
      if current.has_default_variables then true else info.has_default_variables;
  field_paths = info.field_paths ++ current.field_paths;
}

unfoldable pub aggregate_all :
    Library → QueryDocument → List OperationDefinition → QueryInfo → Option QueryInfo
unfolding operation_report aggregate
aggregate_all lib doc [] info = some info
aggregate_all lib doc (op ∷ ops) info =
    operation_report lib doc op >>= λ current. aggregate_all lib doc ops (aggregate info current)

unfoldable pub initial_info : Library → Bytes → QueryDocument → QueryInfo
unfolding hex
initial_info lib query_text doc = record zero_info {
  batch_size = length doc.operations;
  query_hash = hex (take 8 (lib.sum256 query_text));
  fragment_count = length doc.fragments;
}

abbrev pub of_option : Option QueryInfo → Parsed
of_option none = err out_of_fuel
of_option (some info) = ok info

-- What follows a successful parse.
unfoldable pub analyse : Library → Bytes → QueryDocument → Parsed
unfolding any_unnamed aggregate_all initial_info
analyse lib query_text doc =
    if length doc.operations == 0
    then err no_operations
    else if ltb 1 (length doc.operations) && any_unnamed doc.operations
    then err unnamed_operations
    else of_option (aggregate_all lib doc doc.operations (initial_info lib query_text doc))

-- `Parse`, which is `parseGraphQL`.
unfoldable pub parse_graphql : Library → Bytes → Parsed
unfolding analyse
parse_graphql lib query_text =
    if is_empty query_text then err empty_query else elim (lib.parse_query query_text) [
      | none ↦ err parsing_query
      | some doc ↦ analyse lib query_text doc
    ]
