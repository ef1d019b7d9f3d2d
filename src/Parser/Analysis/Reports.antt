-- ===== src/Parser/Analysis/Reports.antt =====
-- What the report of parseGraphQL (parse.go) says of the operations: each metric is the greatest
-- among the operations' own reports.
use gql_firewall.Base.{
  ℕ, max, Bytes, Bool, false, List, [], ◌∷◌, ◌++◌, Option, none, some, ◌≡◌, refl, sym, ◌∙◌,
  append_assoc, append-nil, is_empty, if◌then◌else◌, ◌||◌, ◌>>=◌, >>=-eq-some, arith, Option-cases,
  inl, inr,
}
use gql_firewall.Parser.Ast.{OperationDefinition, QueryDocument, Library}
use gql_firewall.Parser.Info.{QueryInfo}
use gql_firewall.Parser.Values.{worst-max}
use gql_firewall.Parser.Analysis.{
  ok, operation_report, aggregate, aggregate_all, initial_info, analyse, parse_graphql, of_option,
}

-- The reports of the operations, in order.
unfoldable pub reports :
    Library → QueryDocument → List OperationDefinition → Option (List QueryInfo)
reports lib doc [] = some []
reports lib doc (op ∷ ops) =
    operation_report lib doc op >>= λ r. reports lib doc ops >>= λ rs. some (r ∷ rs)

pub merge : QueryInfo → List QueryInfo → QueryInfo
merge info [] = info
merge info (r ∷ rs) = merge (aggregate info r) rs

aggregate_all-merge :
    (lib : Library) (doc : QueryDocument) (ops : List OperationDefinition) (i j : QueryInfo)
    → aggregate_all lib doc ops i ≡ some j
    → (rs : List QueryInfo) × (reports lib doc ops ≡ some rs) × (j ≡ merge i rs)
unfolding aggregate_all reports merge
aggregate_all-merge lib doc [] i j h = ([], refl, cc)
aggregate_all-merge lib doc (op ∷ ops) i j h =
    let (r, one, rest) = >>=-eq-some (operation_report lib doc op) _ h in
    let (rs, all, same) = aggregate_all-merge lib doc ops (aggregate i r) j rest in
    (r ∷ rs, rw (one, all), same)

-- The greatest value of a metric.
abbrev pub greatest : (QueryInfo → ℕ) → List QueryInfo → ℕ
greatest f [] = 0
greatest f (r ∷ rs) = max (f r) (greatest f rs)

abbrev pub all_paths : List QueryInfo → List Bytes
all_paths [] = []
all_paths (r ∷ rs) = r.field_paths ++ all_paths rs

abbrev pub any_defaults : List QueryInfo → Bool
any_defaults [] = false
any_defaults (r ∷ rs) = r.has_default_variables || any_defaults rs

-- The first of the texts that is not empty.
abbrev pub first_text : (QueryInfo → Bytes) → List QueryInfo → Bytes
first_text f [] = []
first_text f (r ∷ rs) = if is_empty (f r) then first_text f rs else f r

pub record IsWorstCase (rs : List QueryInfo) (info : QueryInfo) : Type 0 where
  pub operation_name : info.operation_name ≡ first_text (λ r. r.operation_name) rs
  pub operation_type : info.operation_type ≡ first_text (λ r. r.operation_type) rs
  pub depth : info.depth ≡ greatest (λ r. r.depth) rs
  pub field_count : info.field_count ≡ greatest (λ r. r.field_count) rs
  pub directives : info.directives ≡ greatest (λ r. r.directives) rs
  pub argument_depth : info.argument_depth ≡ greatest (λ r. r.argument_depth) rs
  pub lists_requested : info.lists_requested ≡ greatest (λ r. r.lists_requested) rs
  pub fragment_spread_count :
      info.fragment_spread_count ≡ greatest (λ r. r.fragment_spread_count) rs
  pub variable_count : info.variable_count ≡ greatest (λ r. r.variable_count) rs
  pub operation_directives : info.operation_directives ≡ greatest (λ r. r.operation_directives) rs
  pub inline_fragment_types_count :
      info.inline_fragment_types_count ≡ greatest (λ r. r.inline_fragment_types_count) rs
  pub has_default_variables : info.has_default_variables ≡ any_defaults rs
  pub field_paths : info.field_paths ≡ all_paths rs

-- A metric that `aggregate` takes the worst of.
merge-greatest :
    (f : QueryInfo → ℕ)
    → ((i r : QueryInfo) → f (aggregate i r) ≡ max (f i) (f r))
    → (i : QueryInfo) (rs : List QueryInfo) → f (merge i rs) ≡ max (f i) (greatest f rs)
unfolding merge
merge-greatest f h i [] = omega arith
merge-greatest f h i (r ∷ rs) = omega (arith, merge-greatest f h (aggregate i r) rs, h i r)

merge-first :
    (f : QueryInfo → Bytes)
    → ((i r : QueryInfo) → f (aggregate i r) ≡ (if is_empty (f i) then f r else f i))
    → (i : QueryInfo) (rs : List QueryInfo)
    → f (merge i rs) ≡ (if is_empty (f i) then first_text f rs else f i)
unfolding merge
merge-first f h i [] = ground arith
merge-first f h i (r ∷ rs) = ground (arith, merge-first f h (aggregate i r) rs, h i r)

merge-paths :
    (i : QueryInfo) (rs : List QueryInfo) → (merge i rs).field_paths ≡ i.field_paths ++ all_paths rs
unfolding merge aggregate
merge-paths i [] = sym (append-nil i.field_paths)
merge-paths i (r ∷ rs) =
    merge-paths (aggregate i r) rs ∙ append_assoc i.field_paths r.field_paths (all_paths rs)

merge-defaults :
    (i : QueryInfo) (rs : List QueryInfo)
    → (merge i rs).has_default_variables ≡ i.has_default_variables || any_defaults rs
unfolding merge aggregate
merge-defaults i [] = ground arith
merge-defaults i (r ∷ rs) = ground (arith, merge-defaults (aggregate i r) rs)

worst_case :
    (lib : Library) (q : Bytes) (doc : QueryDocument) (rs : List QueryInfo)
    → IsWorstCase rs (merge (initial_info lib q doc) rs)
unfolding aggregate initial_info
worst_case lib q doc rs =
    let i = initial_info lib q doc in
    let grow = λ (f : QueryInfo → ℕ) (h : (i r : QueryInfo) → f (aggregate i r) ≡ max (f i) (f r)).
      merge-greatest f h i rs in
    record {
      operation_name = merge-first (λ r. r.operation_name) (λ a b. refl) i rs;
      operation_type = merge-first (λ r. r.operation_type) (λ a b. refl) i rs;
      depth = grow (λ r. r.depth) (λ a b. worst-max _ _) ∙ omega arith;
      field_count = grow (λ r. r.field_count) (λ a b. worst-max _ _) ∙ omega arith;
      directives = grow (λ r. r.directives) (λ a b. worst-max _ _) ∙ omega arith;
      argument_depth = grow (λ r. r.argument_depth) (λ a b. worst-max _ _) ∙ omega arith;
      lists_requested = grow (λ r. r.lists_requested) (λ a b. worst-max _ _) ∙ omega arith;
      fragment_spread_count =
          grow (λ r. r.fragment_spread_count) (λ a b. worst-max _ _) ∙ omega arith;
      variable_count = grow (λ r. r.variable_count) (λ a b. worst-max _ _) ∙ omega arith;
      operation_directives =
          grow (λ r. r.operation_directives) (λ a b. worst-max _ _) ∙ omega arith;
      inline_fragment_types_count =
          grow (λ r. r.inline_fragment_types_count) (λ a b. worst-max _ _) ∙ omega arith;
      has_default_variables = merge-defaults i rs;
      field_paths = merge-paths i rs;
    }

-- A successful analysis, with the document and the reports of its operations.
pub record Explains (lib : Library) (query : Bytes) (info : QueryInfo) : Type 0 where
  pub doc : QueryDocument
  pub parsed : lib.parse_query query ≡ some doc
  pub each : List QueryInfo
  pub reported : reports lib doc doc.operations ≡ some each
  pub merged : info ≡ merge (initial_info lib query doc) each
  pub worst : IsWorstCase each info

of_option-eq-ok : (o : Option QueryInfo) (info : QueryInfo) → of_option o ≡ ok info → o ≡ some info
of_option-eq-ok none info h = cc
of_option-eq-ok (some i) info h = cc

analyse-eq-ok :
    (lib : Library) (q : Bytes) (doc : QueryDocument) (info : QueryInfo)
    → analyse lib q doc ≡ ok info
    → aggregate_all lib doc doc.operations (initial_info lib q doc) ≡ some info
unfolding analyse
analyse-eq-ok lib q doc info h =
    ground
      (arith, of_option-eq-ok (aggregate_all lib doc doc.operations (initial_info lib q doc)) info)

-- Whenever the parser returns a report, each metric of it is the greatest of the values that the
-- operations of the document have on their own, its paths are all their paths, and its operation
-- type and name are the first ones given.
pub parse_graphql-worst :
    (lib : Library) (query : Bytes) (info : QueryInfo)
    → parse_graphql lib query ≡ ok info
    → Explains lib query info
unfolding parse_graphql
parse_graphql-worst lib [] info h = cc
parse_graphql-worst lib (c ∷ q) info h = elim (Option-cases (lib.parse_query (c ∷ q))) [
  | inl refused ↦ absurd (ground arith)
  | inr (doc, parsed) ↦
      let done = analyse-eq-ok lib (c ∷ q) doc info (rw (parsed, parse_graphql) at h) in
      let (rs, each, same) = aggregate_all-merge lib doc doc.operations _ info done in
      record {
        doc = doc;
        parsed = parsed;
        each = rs;
        reported = each;
        merged = same;
        worst = rw same (worst_case lib (c ∷ q) doc rs);
      }
]
