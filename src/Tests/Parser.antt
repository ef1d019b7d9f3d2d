-- ===== src/Tests/Parser.antt =====
-- The parser on the sample document.
use gql_firewall.Base.{
  subst, ℕ, ◌+◌, Bytes, [], ◌∷◌, some, codes, ◌≡◌, ◌≢◌, ◌↔◌, refl, max, arith, bytes_equal, All,
}
use gql_firewall.Parser.Ast.{
  Value, value, present, Children, no_ref, fragment_spread, nil, cons, QueryDocument,
}
use gql_firewall.Parser.Info.{QueryInfo}
use gql_firewall.Parser.Values.{worst, measure_value_depth}
use gql_firewall.Parser.Values.Height
use gql_firewall.Parser.Values.Height.{height}
use gql_firewall.Parser.Paths.{split_path, extend_path}
use gql_firewall.Parser.Paths.Laws.{IsName, IsDotless}
use gql_firewall.Parser.Walk.{
  Walk, is_visited, field_name, is_plural, measure_arguments, enter_field, enter_inline_fragment,
  enter_spread, walk_spread, walk_selections,
}
use gql_firewall.Parser.Walk.Metrics.{deepest, HasName}
use gql_firewall.Parser.Walk.Rule.{FieldsIn}
use gql_firewall.Parser.Walk.Blind
use gql_firewall.Parser.Walk.Blind.{nest, relabel_document}
use gql_firewall.Parser.Analysis.{ok, analyse, parse_graphql}
use gql_firewall.Parser.Analysis.Reports
use gql_firewall.Parser.Analysis.Reports.{Explains}
use gql_firewall.Parser.Analysis.Outcomes
use gql_firewall.Parser.Analysis.Outcomes.{IsAnalysable}
use gql_firewall.Parser.Analysis.Depth
use gql_firewall.Parser.Analysis.Fields
use gql_firewall.Parser.Analysis.Fields.{PathsOf}
use gql_firewall.Tests.Samples.{
  find_fragment, find_fragment-FindsListed, sample_document, sample_library, sample_query,
  sample_info,
}

unfoldable pub program : Unit {0}
unfolding measure_value_depth worst split_path extend_path is_visited field_name is_plural
    measure_arguments enter_field enter_inline_fragment enter_spread walk_spread walk_selections
    analyse parse_graphql find_fragment bytes_equal
program = tt

parse_graphql_sample : parse_graphql sample_library sample_query ≡ ok sample_info
unfolding program
parse_graphql_sample = refl

parse_graphql-worst_example : Explains sample_library sample_query sample_info
parse_graphql-worst_example =
    Reports.parse_graphql-worst sample_library sample_query sample_info parse_graphql_sample

parse_graphql-eq-ok_iff_example :
    ((info : QueryInfo) × (parse_graphql sample_library sample_query ≡ ok info)) ↔ (
      (doc : QueryDocument) × (sample_query ≢ [])
      × (some sample_document ≡ some doc)
      × IsAnalysable doc)
parse_graphql-eq-ok_iff_example =
    Outcomes.parse_graphql-eq-ok_iff sample_library sample_query find_fragment-FindsListed

IsName-of : (c : ℕ) (s : Bytes) → IsDotless (c ∷ s) → IsName (c ∷ s)
IsName-of c s h = ((λ e. ground arith), h)

sample_names : Depth.ParsesNames sample_library
unfolding field_name
sample_names q doc h =
    let e : sample_document ≡ doc = ground arith in
    subst
      (λ d.
        All (λ op. FieldsIn HasName op.selection_set) d.operations
        × All (λ f. FieldsIn HasName f.selection_set) d.fragments)
      e
      (
        (((IsName-of _ _ (omega arith), ((IsName-of _ _ (omega arith), tt), (tt, tt))), tt), tt),
        (((IsName-of _ _ (omega arith), (tt, tt)), tt), tt),
      )

parse_graphql-depth_example : 2 ≡ deepest sample_info.field_paths
parse_graphql-depth_example =
    Depth.parse_graphql-depth sample_library sample_query sample_info find_fragment-FindsListed
      sample_names parse_graphql_sample

abbrev hidden : Bytes → Bytes → Bytes
hidden alias name = codes "__schema"

analyse-relabel_example :
    analyse sample_library sample_query (relabel_document hidden sample_document)
    ≡ analyse sample_library sample_query sample_document
analyse-relabel_example = Blind.analyse-relabel sample_library hidden sample_query sample_document

abbrev visited_f : Walk
visited_f = record { info = sample_info; visited = codes "F" ∷ [] }

walk_selections-nest_example :
    (w : Walk) × (walk_selections sample_library sample_document.fragments 2
        (nest (codes "a") 40 (cons (fragment_spread (codes "F") []) nil))
        (codes "me")
        1
        visited_f
      ≡ some w)
    × (w.info.depth ≡ max 2 (1 + 40))
walk_selections-nest_example =
    Blind.walk_selections-nest sample_library sample_document.fragments (codes "a") (codes "F") 1 40
      (codes "me") 1 visited_f (unfold program in refl) (omega arith)

abbrev nested_list : Value
nested_list = value (Children.cons (present (value Children.nil no_ref)) Children.nil) no_ref

measure_value_depth-height_example :
    measure_value_depth (present nested_list) 1 ≡ 1 + height nested_list
measure_value_depth-height_example = Height.measure_value_depth-height nested_list 1

parse_graphql-PathsOf_example : PathsOf sample_library sample_query sample_info
parse_graphql-PathsOf_example =
    Fields.parse_graphql-PathsOf sample_library sample_query sample_info find_fragment-FindsListed
      parse_graphql_sample
