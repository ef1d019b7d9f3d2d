-- ===== src/Parser/Analysis/Fields.antt =====
-- The field paths in the report of parseGraphQL (parse.go) against what the operations select.
use gql_firewall.Base.{
  Bytes, List, [], ◌∷◌, some, ◌≡◌, refl, sym, ap, subst, >>=-eq-some, In, In-append-left,
  In-append-right, In-append-cases, inl, inr, arith,
}
use gql_firewall.Parser.Ast.{OperationDefinition, QueryDocument, Library, FindsListed}
use gql_firewall.Parser.Info.{QueryInfo}
use gql_firewall.Parser.Paths.{extend_path}
use gql_firewall.Parser.Walk.Selected.{Selects, SelectsPath, walk_selections-selects}
use gql_firewall.Parser.Walk.Covers.{HasField}
use gql_firewall.Parser.Walk.Unmissed.{walk_selections-unmissed, walk_selections-own_path}
use gql_firewall.Parser.Analysis.{ok, operation_info, operation_report, parse_graphql}
use gql_firewall.Parser.Analysis.Reports.{reports, all_paths, parse_graphql-worst}

module _ (lib : Library) (doc : QueryDocument) where
  operation_report-selects :
      (op : OperationDefinition) (r : QueryInfo) (path : Bytes)
      → operation_report lib doc op ≡ some r
      → In path r.field_paths
      → SelectsPath lib doc.fragments op.selection_set [] path
  unfolding operation_report operation_info
  operation_report-selects op r path h m =
      let (w, run, same) = >>=-eq-some _ _ h in
      let e : r.field_paths ≡ w.info.field_paths = ground arith in
      elim (walk_selections-selects lib doc.fragments _ op.selection_set [] 0 _ w run path
        (subst (In path) e m)) [ inl before ↦ absurd before | inr selected ↦ selected ]

  operation_report-unmissed :
      (op : OperationDefinition) (r : QueryInfo) (parent name : Bytes)
      → operation_report lib doc op ≡ some r
      → Selects lib doc.fragments op.selection_set [] parent name
      → HasField r.field_paths name
  unfolding operation_report operation_info
  operation_report-unmissed op r parent name h s =
      let (w, run, same) = >>=-eq-some _ _ h in
      let e : w.info.field_paths ≡ r.field_paths = ground arith in
      subst (λ paths. HasField paths name) e
        (walk_selections-unmissed lib doc.fragments _ op.selection_set [] parent name 0 _ w refl run
          s)

  reports-selects :
      (ops : List OperationDefinition) (rs : List QueryInfo) (path : Bytes)
      → reports lib doc ops ≡ some rs
      → In path (all_paths rs)
      → (op : OperationDefinition) × In op ops
        × SelectsPath lib doc.fragments op.selection_set [] path
  unfolding reports
  reports-selects [] rs path h m =
      let e : [] ≡ rs = ground arith in absurd (subst (λ x. In path (all_paths x)) (sym e) m)
  reports-selects (op ∷ ops) rs path h m =
      let (r, one, rest) = >>=-eq-some (operation_report lib doc op) _ h in
      let (more, all, same) = >>=-eq-some (reports lib doc ops) _ rest in
      let e : rs ≡ r ∷ more = ground arith in
      elim (In-append-cases r.field_paths (all_paths more) path
        (subst (λ x. In path (all_paths x)) e m)) [
          | inl own ↦ (op, inl refl, operation_report-selects op r path one own)
          | inr other ↦
              let (op', listed, selected) = reports-selects ops more path all other in
              (op', inr listed, selected)
        ]

  operation_report-own_path :
      (op : OperationDefinition) (r : QueryInfo) (parent name : Bytes)
      → FindsListed lib
      → operation_report lib doc op ≡ some r
      → Selects lib [] op.selection_set [] parent name
      → In (extend_path parent name) r.field_paths
  unfolding operation_report operation_info
  operation_report-own_path op r parent name finds h s =
      let (w, run, same) = >>=-eq-some _ _ h in
      let e : w.info.field_paths ≡ r.field_paths = ground arith in
      subst (In (extend_path parent name)) e (
        walk_selections-own_path lib doc.fragments _ op.selection_set [] parent name 0 _ w finds run
          s)

  -- Each operation has its report, whose paths are all passed on.
  reports-listed :
      (ops : List OperationDefinition) (rs : List QueryInfo) (op : OperationDefinition)
      → reports lib doc ops ≡ some rs
      → In op ops
      → (r : QueryInfo) × (operation_report lib doc op ≡ some r)
        × ((path : Bytes) → In path r.field_paths → In path (all_paths rs))
  unfolding reports
  reports-listed [] rs op h listed = absurd listed
  reports-listed (op' ∷ ops) rs op h listed =
      let (r, one, rest) = >>=-eq-some (operation_report lib doc op') _ h in
      let (more, all, same) = >>=-eq-some (reports lib doc ops) _ rest in
      let same_list : r ∷ more ≡ rs = ground arith in
      let e : all_paths (r ∷ more) ≡ all_paths rs = ap all_paths same_list in
      elim listed [
        | inl own ↦ (
          r,
          rw (← own) one,
          λ path m. subst (In path) e (In-append-left r.field_paths (all_paths more) path m),
        )
        | inr other ↦
            let (r', report, kept) = reports-listed ops more op all other in
            (
              r',
              report,
              λ path m.
                  subst (In path) e
                    (In-append-right r.field_paths (all_paths more) path (kept path m)),
            )
      ]

-- The paths of a report against the document: each is the path of a field that an operation selects;
-- each field that an operation selects has a path, and its own one if it stands outside fragments.
pub record PathsOf (lib : Library) (query : Bytes) (info : QueryInfo) : Type 0 where
  pub doc : QueryDocument
  pub parsed : lib.parse_query query ≡ some doc
  pub selected :
      (path : Bytes)
      → In path info.field_paths
      → (op : OperationDefinition) × In op doc.operations
        × SelectsPath lib doc.fragments op.selection_set [] path
  pub unmissed :
      (op : OperationDefinition) (parent name : Bytes)
      → In op doc.operations
      → Selects lib doc.fragments op.selection_set [] parent name
      → HasField info.field_paths name
  pub own_paths :
      (op : OperationDefinition) (parent name : Bytes)
      → In op doc.operations
      → Selects lib [] op.selection_set [] parent name
      → In (extend_path parent name) info.field_paths

-- Whenever the parser returns a report, each of its paths is the path of a field that some operation
-- of the document selects, itself or through fragments, and each field that an operation so selects
-- ends a path of the report, however fragments repeat or refer to one another; a field outside fragments
-- has its own path in it. `ForName` has to return listed fragments.
pub parse_graphql-PathsOf :
    (lib : Library) (query : Bytes) (info : QueryInfo)
    → FindsListed lib
    → parse_graphql lib query ≡ ok info
    → PathsOf lib query info
parse_graphql-PathsOf lib query info finds h =
    let e = parse_graphql-worst lib query info h in
    let there = λ (path : Bytes). subst (In path) (sym e.worst.field_paths) in
    record {
      doc = e.doc;
      parsed = e.parsed;
      selected = λ path m.
          reports-selects lib e.doc e.doc.operations e.each path e.reported
            (subst (In path) e.worst.field_paths m);
      unmissed = λ op parent name listed s.
          let (r, one, kept) =
            reports-listed lib e.doc e.doc.operations e.each op e.reported listed in
          let (p, m) = operation_report-unmissed lib e.doc op r parent name one s in
          (p, there _ (kept _ m));
      own_paths = λ op parent name listed s.
          let (r, one, kept) =
            reports-listed lib e.doc e.doc.operations e.each op e.reported listed in
          there _ (kept _ (operation_report-own_path lib e.doc op r parent name finds one s));
    }
