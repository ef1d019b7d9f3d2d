-- ===== src/Parser/Analysis/Outcomes.antt =====
-- When parseGraphQL (parse.go) reports and when it refuses.
use gql_firewall.Base.{
  suc, Bytes, false, List, [], ◌∷◌, some, ◌≡◌, ◌≢◌, ◌↔◌, ◌⊎◌, refl, length, arith, All,
  Option-cases, Bool-cases, inl, inr, ◌&&◌, ltb, ◌==◌,
}
use gql_firewall.Parser.Ast.{OperationDefinition, QueryDocument, Library, FindsListed}
use gql_firewall.Parser.Info.{QueryInfo}
use gql_firewall.Parser.Walk.Total.{walk_selections_total}
use gql_firewall.Parser.Walk.Metrics.{}
use gql_firewall.Parser.Analysis.{
  ok, any_unnamed, operation_info, operation_report, aggregate_all, aggregate, initial_info,
  analyse, parse_graphql, fragment_directives,
}
use gql_firewall.Parser.Analysis.Reports.{}

module _ (lib : Library) (doc : QueryDocument) where
  operation_report_total :
      FindsListed lib
      → (op : OperationDefinition) → (r : QueryInfo) × (operation_report lib doc op ≡ some r)
  unfolding operation_report
  operation_report_total finds op =
      let (w, run) =
        walk_selections_total lib doc.fragments (suc (length doc.fragments)) op.selection_set [] 0
          (record { info = operation_info lib doc op; visited = [] }) finds (omega arith) in
      (
        record w.info { directives = fragment_directives doc.fragments w.info.directives },
        rw run refl,
      )

  aggregate_all_total :
      FindsListed lib
      → (ops : List OperationDefinition) (i : QueryInfo)
      → (j : QueryInfo) × (aggregate_all lib doc ops i ≡ some j)
  unfolding aggregate_all
  aggregate_all_total finds [] i = (i, refl)
  aggregate_all_total finds (op ∷ ops) i =
      let (r, one) = operation_report_total finds op in
      let (j, rest) = aggregate_all_total finds ops (aggregate i r) in (j, rw one rest)

-- A document has an operation, and where it has several they all have names.
abbrev pub IsAnalysable : QueryDocument → Type 0
IsAnalysable doc =
    (doc.operations ≢ []) × ((length doc.operations ≡ 1) ⊎ All (λ op. op.name ≢ []) doc.operations)

any_unnamed-All :
    (ops : List OperationDefinition) → any_unnamed ops ≡ false → All (λ op. op.name ≢ []) ops
unfolding any_unnamed
any_unnamed-All [] h = tt
any_unnamed-All (op ∷ ops) h = ((λ e. ground arith), any_unnamed-All ops (ground arith))

All-any_unnamed :
    (ops : List OperationDefinition) → All (λ op. op.name ≢ []) ops → any_unnamed ops ≡ false
unfolding any_unnamed
All-any_unnamed [] h = refl
All-any_unnamed (op ∷ ops) h = ground (arith, All-any_unnamed ops h.1)

one_or_named :
    (ops : List OperationDefinition)
    → ops ≢ []
    → (length ops ≡ 1) ⊎ All (λ op. op.name ≢ []) ops
    → (length ops == 0 ≡ false) × ((ltb 1 (length ops) && any_unnamed ops) ≡ false)
one_or_named [] h k = absurd (h refl)
one_or_named (op ∷ ops) h (inl one) = (ground arith, ground arith)
one_or_named (op ∷ ops) h (inr named) =
    (ground arith, ground (arith, All-any_unnamed (op ∷ ops) named))

named_of_tests :
    (ops : List OperationDefinition)
    → (length ops == 0) ≡ false
    → (ltb 1 (length ops) && any_unnamed ops) ≡ false
    → (ops ≢ []) × ((length ops ≡ 1) ⊎ All (λ op. op.name ≢ []) ops)
named_of_tests [] h k = absurd (ground arith)
named_of_tests (op ∷ []) h k = ((λ e. ground arith), inl refl)
named_of_tests (op ∷ op' ∷ ops) h k =
    ((λ e. ground arith), inr (any_unnamed-All (op ∷ op' ∷ ops) (ground arith)))

module _ (lib : Library) (query : Bytes) where
  analyse-IsAnalysable :
      (doc : QueryDocument) (info : QueryInfo) → analyse lib query doc ≡ ok info → IsAnalysable doc
  unfolding analyse
  analyse-IsAnalysable doc info h = elim (Bool-cases (length doc.operations == 0)) [
    | inl empty ↦ absurd (ground arith)
    | inr some_op ↦
        elim (Bool-cases (ltb 1 (length doc.operations) && any_unnamed doc.operations)) [
          | inl unnamed ↦ absurd (ground arith)
          | inr named ↦ named_of_tests doc.operations some_op named
        ]
  ]

  analyse_of_IsAnalysable :
      FindsListed lib
      → (doc : QueryDocument) → IsAnalysable doc
      → (info : QueryInfo) × (analyse lib query doc ≡ ok info)
  unfolding analyse
  analyse_of_IsAnalysable finds doc (nonempty, names) =
      let (some_op, named) = one_or_named doc.operations nonempty names in
      let (info, run) =
        aggregate_all_total lib doc finds doc.operations (initial_info lib query doc) in
      (info, rw (some_op, named, run) refl)

-- Where `ForName` finds listed fragments, the analysis of a query gives a report exactly when the
-- query is not empty, it parses, and its document has one operation or several that all have names:
-- circular and missing fragments never stop it.
pub parse_graphql-eq-ok_iff :
    (lib : Library) (query : Bytes)
    → FindsListed lib
    → ((info : QueryInfo) × (parse_graphql lib query ≡ ok info)) ↔ (
        (doc : QueryDocument) × (query ≢ [])
        × (lib.parse_query query ≡ some doc)
        × IsAnalysable doc)
unfolding parse_graphql
parse_graphql-eq-ok_iff lib query finds = (there query, back query)
  where
    there :
        (q : Bytes)
        → (info : QueryInfo) × (parse_graphql lib q ≡ ok info)
        → (doc : QueryDocument) × (q ≢ []) × (lib.parse_query q ≡ some doc) × IsAnalysable doc
    there [] (info, h) = cc
    there (c ∷ q) (info, h) = elim (Option-cases (lib.parse_query (c ∷ q))) [
      | inl refused ↦ absurd (ground arith)
      | inr (doc, parsed) ↦ (
        doc,
        (λ e. ground arith),
        parsed,
        analyse-IsAnalysable lib (c ∷ q) doc info (rw (parsed, parse_graphql) at h),
      )
    ]

    back :
        (q : Bytes)
        → (doc : QueryDocument) × (q ≢ []) × (lib.parse_query q ≡ some doc) × IsAnalysable doc
        → (info : QueryInfo) × (parse_graphql lib q ≡ ok info)
    back [] (doc, nonempty, parsed, good) = absurd (nonempty refl)
    back (c ∷ q) (doc, nonempty, parsed, good) =
        let (info, run) = analyse_of_IsAnalysable lib (c ∷ q) finds doc good in
        (info, rw parsed run)
