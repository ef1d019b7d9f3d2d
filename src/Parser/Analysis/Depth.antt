-- ===== src/Parser/Analysis/Depth.antt =====
-- How the numbers of the report of parseGraphQL (parse.go) hang together: the depth and the field
-- count against the field paths.
use gql_firewall.Base.{
  ◌≤◌, Bytes, List, [], ◌∷◌, some, ◌≡◌, refl, sym, ap, ◌∙◌, length, length-append, >>=-eq-some,
  arith, All, In-All,
}
use gql_firewall.Parser.Ast.{
  OperationDefinition, FragmentDefinition, QueryDocument, Library, FindsListed,
}
use gql_firewall.Parser.Info.{QueryInfo}
use gql_firewall.Parser.Paths.{split_path}
use gql_firewall.Parser.Walk.Rule.{FieldsIn}
use gql_firewall.Parser.Walk.Metrics.{
  HasName, deepest, deepest-append, walk_selections-depth, walk_selections-field_count,
}
use gql_firewall.Parser.Analysis.{ok, operation_info, operation_report, parse_graphql}
use gql_firewall.Parser.Analysis.Reports.{reports, all_paths, greatest, parse_graphql-worst}

-- The depth and the paths of one operation's report.
module _ (lib : Library) (doc : QueryDocument)
    (named : (n : Bytes) (f : FragmentDefinition)
      → lib.for_name doc.fragments n ≡ some f
      → FieldsIn HasName f.selection_set) where
  operation_report-depth :
      (op : OperationDefinition) (r : QueryInfo)
      → FieldsIn HasName op.selection_set
      → operation_report lib doc op ≡ some r
      → r.depth ≡ deepest r.field_paths
  unfolding operation_report
  operation_report-depth op r q h =
      let (w, run, same) = >>=-eq-some _ _ h in
      let deep =
        walk_selections-depth lib doc.fragments _ op.selection_set [] 0 _ w run named q
          (unfold split_path in refl) (unfold operation_info deepest in refl) in
      ground arith

  pub reports-depth :
      (ops : List OperationDefinition) (rs : List QueryInfo)
      → All (λ op. FieldsIn HasName op.selection_set) ops
      → reports lib doc ops ≡ some rs
      → greatest (λ r. r.depth) rs ≡ deepest (all_paths rs)
  unfolding reports deepest
  reports-depth [] rs q h = ground arith
  reports-depth (op ∷ ops) rs q h =
      let (r, one, rest) = >>=-eq-some (operation_report lib doc op) _ h in
      let (more, all, same) = >>=-eq-some (reports lib doc ops) _ rest in
      let e : r ∷ more ≡ rs = ground arith in
      rw (← e) (
        omega (
          arith,
          operation_report-depth op r q.0 one,
          reports-depth ops more q.1 all,
          deepest-append r.field_paths (all_paths more),
        ))

-- Every name of the documents that the parser returns is a GraphQL name: not empty, without a dot.
abbrev pub ParsesNames : Library → Type 0
ParsesNames lib =
    (q : Bytes) (doc : QueryDocument)
    → lib.parse_query q ≡ some doc
    → All (λ op. FieldsIn HasName op.selection_set) doc.operations
      × All (λ f. FieldsIn HasName f.selection_set) doc.fragments

-- In every report the depth is the number of segments of the deepest field path, fragments and
-- several operations included, if the parser returns proper names and `ForName` listed fragments.
pub parse_graphql-depth :
    (lib : Library) (query : Bytes) (info : QueryInfo)
    → FindsListed lib
    → ParsesNames lib
    → parse_graphql lib query ≡ ok info
    → info.depth ≡ deepest info.field_paths
parse_graphql-depth lib query info finds names h =
    let e = parse_graphql-worst lib query info h in
    let (ops, fragments) = names query e.doc e.parsed in
    let named =
      λ (n : Bytes) (f : FragmentDefinition) (found : lib.for_name e.doc.fragments n ≡ some f).
        In-All (λ g. FieldsIn HasName g.selection_set) e.doc.fragments fragments
          (finds e.doc.fragments n f found).0 in
    e.worst.depth
    ∙ reports-depth lib e.doc named e.doc.operations e.each ops e.reported
    ∙ ap deepest (sym e.worst.field_paths)

-- `FieldCount` of one operation is the number of its paths; the report takes the greatest of these,
-- so it counts no more fields than the report has paths.
module _ (lib : Library) (doc : QueryDocument) where
  operation_report-field_count :
      (op : OperationDefinition) (r : QueryInfo)
      → operation_report lib doc op ≡ some r
      → r.field_count ≡ length r.field_paths
  unfolding operation_report
  operation_report-field_count op r h =
      let (w, run, same) = >>=-eq-some _ _ h in
      let counted = walk_selections-field_count lib doc.fragments _ op.selection_set [] 0 _ w run in
      ground arith

  reports-field_count :
      (ops : List OperationDefinition) (rs : List QueryInfo)
      → reports lib doc ops ≡ some rs
      → greatest (λ r. r.field_count) rs ≤ length (all_paths rs)
  unfolding reports
  reports-field_count [] rs h = ground arith
  reports-field_count (op ∷ ops) rs h =
      let (r, one, rest) = >>=-eq-some (operation_report lib doc op) _ h in
      let (more, all, same) = >>=-eq-some (reports lib doc ops) _ rest in
      let e : r ∷ more ≡ rs = ground arith in
      rw (← e) (
        omega (
          arith,
          operation_report-field_count op r one,
          reports-field_count ops more all,
          length-append r.field_paths (all_paths more),
        ))

parse_graphql-field_count-le :
    (lib : Library) (query : Bytes) (info : QueryInfo)
    → parse_graphql lib query ≡ ok info
    → info.field_count ≤ length info.field_paths
parse_graphql-field_count-le lib query info h =
    let e = parse_graphql-worst lib query info h in
    omega (
      arith,
      e.worst.field_count,
      ap length e.worst.field_paths,
      reports-field_count lib e.doc e.doc.operations e.each e.reported,
    )
