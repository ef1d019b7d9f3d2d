-- ===== src/Parser/Walk/Blind.antt =====
-- What the walk (walkSelections, parse.go) does not see: the real name of an aliased field, and what
-- a fragment holds when it is spread a second time.
use gql_firewall.Base.{
  ◌≤◌, ℕ, zero, suc, ◌+◌, max, Bytes, true, List, [], ◌∷◌, some, ◌≡◌, refl, ap, is_empty,
  if◌then◌else◌, ◌>>=◌, arith, map, fun_ext, length,
}
use gql_firewall.Parser.Ast.{
  Selection, field, inline_fragment, fragment_spread, SelectionSet, nil, cons, OperationDefinition,
  FragmentDefinition, QueryDocument, Library,
}
use gql_firewall.Parser.Info.{QueryInfo}
use gql_firewall.Parser.Paths.{extend_path}
use gql_firewall.Parser.Values.{worst-max}
use gql_firewall.Parser.Walk.{
  Walk, is_visited, field_name, enter_field, enter_spread, Visit, walk_spread, walk_selection,
  walk_set, walk_selections,
}
use gql_firewall.Parser.Analysis.{
  any_unnamed, operation_report, aggregate, aggregate_all, initial_info, analyse,
}

-- Another name, given by `g`, for each field that has an alias.
mutual
  pub relabel : (Bytes → Bytes → Bytes) → SelectionSet → SelectionSet
  relabel g nil = nil
  relabel g (cons s rest) = cons (relabel_one g s) (relabel g rest)

  pub relabel_one : (Bytes → Bytes → Bytes) → Selection → Selection
  relabel_one g (field alias name args ds set) =
      field alias (if is_empty alias then name else g alias name) args ds (relabel g set)
  relabel_one g (inline_fragment condition ds set) = inline_fragment condition ds (relabel g set)
  relabel_one g (fragment_spread name ds) = fragment_spread name ds

pub relabel_operation : (Bytes → Bytes → Bytes) → OperationDefinition → OperationDefinition
relabel_operation g op = record op { selection_set = relabel g op.selection_set }

field_name-relabel :
    (g : Bytes → Bytes → Bytes) (alias name : Bytes)
    → field_name alias (if is_empty alias then name else g alias name) ≡ field_name alias name
unfolding field_name
field_name-relabel g [] name = refl
field_name-relabel g (c ∷ alias) name = refl

module _ (lib : Library) (fragments : List FragmentDefinition) (g : Bytes → Bytes → Bytes) where
  mutual
    unfolding walk_set relabel

    selection-relabel :
        (jump : Visit) (s : Selection) (p : Bytes) (d : ℕ) (w : Walk)
        → walk_selection lib fragments jump (relabel_one g s) p d w
          ≡ walk_selection lib fragments jump s p d w
    selection-relabel jump (field alias name args ds set) p d w =
        rw (field_name-relabel g alias name) (set-relabel jump set _ (d + 1) _)
    selection-relabel jump (inline_fragment condition ds set) p d w = set-relabel jump set p d _
    selection-relabel jump (fragment_spread name ds) p d w = refl

    set-relabel :
        (jump : Visit) (set : SelectionSet) (p : Bytes) (d : ℕ) (w : Walk)
        → walk_set lib fragments jump (relabel g set) p d w ≡ walk_set lib fragments jump set p d w
    set-relabel jump nil p d w = refl
    set-relabel jump (cons s rest) p d w = rw (selection-relabel jump s p d w) (
        ap (λ k. walk_selection lib fragments jump s p d w >>= k)
          (fun_ext (λ v. set-relabel jump rest p d v)))

  pub walk_selections-relabel :
      (fuel : ℕ) (set : SelectionSet) (p : Bytes) (d : ℕ) (w : Walk)
      → walk_selections lib fragments fuel (relabel g set) p d w
        ≡ walk_selections lib fragments fuel set p d w
  unfolding walk_selections
  walk_selections-relabel zero set p d w = refl
  walk_selections-relabel (suc fuel) set p d w =
      set-relabel (walk_selections lib fragments fuel) set p d w

-- The document with other names behind the aliases of its operations.
pub relabel_document : (Bytes → Bytes → Bytes) → QueryDocument → QueryDocument
relabel_document g doc = record doc { operations = map (relabel_operation g) doc.operations }

module _ (lib : Library) (g : Bytes → Bytes → Bytes) (doc : QueryDocument) where
  report-relabel :
      (op : OperationDefinition)
      → operation_report lib (relabel_document g doc) (relabel_operation g op)
        ≡ operation_report lib doc op
  unfolding operation_report relabel_operation relabel_document
  report-relabel op = rw (walk_selections-relabel lib doc.fragments g)

  aggregate_all-relabel :
      (ops : List OperationDefinition) (i : QueryInfo)
      → aggregate_all lib (relabel_document g doc) (map (relabel_operation g) ops) i
        ≡ aggregate_all lib doc ops i
  unfolding aggregate_all
  aggregate_all-relabel [] i = refl
  aggregate_all-relabel (op ∷ ops) i = rw (report-relabel op) (
      ap (λ k. operation_report lib doc op >>= k)
        (fun_ext (λ r. aggregate_all-relabel ops (aggregate i r))))

  length-relabel :
      (ops : List OperationDefinition) → length (map (relabel_operation g) ops) ≡ length ops
  length-relabel [] = refl
  length-relabel (op ∷ ops) = ap suc (length-relabel ops)

  any_unnamed-relabel :
      (ops : List OperationDefinition)
      → any_unnamed (map (relabel_operation g) ops) ≡ any_unnamed ops
  unfolding any_unnamed relabel_operation
  any_unnamed-relabel [] = refl
  any_unnamed-relabel (op ∷ ops) = rw (any_unnamed-relabel ops)

-- The report does not depend on the real names of aliased fields: putting any other fields behind the
-- aliases of the operations leaves the whole result of the analysis as it is.
pub analyse-relabel :
    (lib : Library) (g : Bytes → Bytes → Bytes) (q : Bytes) (doc : QueryDocument)
    → analyse lib q (relabel_document g doc) ≡ analyse lib q doc
unfolding analyse initial_info relabel_document
analyse-relabel lib g q doc =
    rw (length-relabel lib g doc doc.operations, any_unnamed-relabel lib g doc doc.operations)
      (rw (aggregate_all-relabel lib g doc doc.operations) refl)

-- `k` fields named `name`, one inside the other, around a selection set.
pub nest : Bytes → ℕ → SelectionSet → SelectionSet
nest name zero set = set
nest name (suc k) set = cons (field name name [] [] (nest name k set)) nil

module _ (lib : Library) (fragments : List FragmentDefinition) (name fragment : Bytes) where
  spread_again :
      (jump : Visit) (p : Bytes) (d : ℕ) (w : Walk)
      → is_visited fragment w.visited ≡ true
      → walk_set lib fragments jump (cons (fragment_spread fragment []) nil) p d w
        ≡ some (record { info = enter_spread [] w.info; visited = w.visited })
  unfolding walk_set walk_spread
  spread_again jump p d w seen = rw seen

  set-nest :
      (jump : Visit) (k : ℕ) (p : Bytes) (d : ℕ) (w : Walk)
      → is_visited fragment w.visited ≡ true
      → d ≤ w.info.depth
      → (w' : Walk) × (walk_set lib fragments jump
            (nest name k (cons (fragment_spread fragment []) nil))
            p
            d
            w
          ≡ some w')
        × (w'.info.depth ≡ max w.info.depth (d + k))
  unfolding walk_set nest enter_field enter_spread
  set-nest jump zero p d w seen h = (_, spread_again jump p d w seen, omega arith)
  set-nest jump (suc k) p d w seen h =
      let response = field_name name name in
      let path = extend_path p response in
      let now : Walk = record w { info = enter_field response [] [] path d w.info } in
      let (w', run, deep) =
        set-nest jump k path (d + 1) now seen (omega (arith, worst-max w.info.depth (d + 1))) in
      (w', rw run refl, omega (arith, worst-max w.info.depth (d + 1)))

-- A spread of a fragment that was spread before, `k` fields further down, is reported as depth
-- `d + k`: whatever the fragment selects adds nothing to the reported depth.
pub walk_selections-nest :
    (lib : Library) (fragments : List FragmentDefinition) (name fragment : Bytes) (fuel k : ℕ)
    (p : Bytes) (d : ℕ) (w : Walk)
    → is_visited fragment w.visited ≡ true
    → d ≤ w.info.depth
    → (w' : Walk) × (walk_selections lib fragments
          (suc fuel)
          (nest name k (cons (fragment_spread fragment []) nil))
          p
          d
          w
        ≡ some w')
      × (w'.info.depth ≡ max w.info.depth (d + k))
unfolding walk_selections
walk_selections-nest lib fragments name fragment fuel k p d w =
    set-nest lib fragments name fragment (walk_selections lib fragments fuel) k p d w
