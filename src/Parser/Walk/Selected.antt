-- ===== src/Parser/Walk/Selected.antt =====
-- What a selection set selects, as a relation that knows no order of visits and no marks, against the
-- field paths that walkSelections (parse.go) writes.
use gql_firewall.Base.{
  List, >>=-eq-some, In-append-cases, In, ℕ, zero, suc, ◌+◌, Bytes, ◌∷◌, [], some, ◌≡◌, sym, ◌⊎◌,
  inl, inr, Bool-cases, Option-cases, subst, arith,
}
use gql_firewall.Parser.Ast.{
  Argument, Directive, Selection, field, inline_fragment, fragment_spread, SelectionSet, nil, cons,
  FragmentDefinition, Library,
}
use gql_firewall.Parser.Paths.{extend_path}
use gql_firewall.Parser.Walk.{
  Walk, is_visited, field_name, enter_field, enter_inline_fragment, enter_spread, Visit,
  walk_spread, walk_selection, walk_set, walk_selections,
}

-- The set, taken at prefix `p`, has a field of response name `r` whose parent is at path `q`: its own,
-- below a field, in an inline fragment, or in the fragment that a spread names.
pub data Selects (lib : Library) (fragments : List FragmentDefinition)
    : SelectionSet → Bytes → Bytes → Bytes → Type 0 where
  here :
      {alias name p : Bytes} {args : List Argument} {ds : List Directive} {set rest : SelectionSet}
      → Selects lib fragments (cons (field alias name args ds set) rest) p p (field_name alias name)
  below :
      {alias name p q r : Bytes} {args : List Argument} {ds : List Directive}
      {set rest : SelectionSet}
      → Selects lib fragments set (extend_path p (field_name alias name)) q r
      → Selects lib fragments (cons (field alias name args ds set) rest) p q r
  inside :
      {condition p q r : Bytes} {ds : List Directive} {set rest : SelectionSet}
      → Selects lib fragments set p q r
      → Selects lib fragments (cons (inline_fragment condition ds set) rest) p q r
  spread :
      {name p q r : Bytes} {ds : List Directive} {rest : SelectionSet} {f : FragmentDefinition}
      → lib.for_name fragments name ≡ some f
      → Selects lib fragments f.selection_set p q r
      → Selects lib fragments (cons (fragment_spread name ds) rest) p q r
  later :
      {s : Selection} {rest : SelectionSet} {p q r : Bytes}
      → Selects lib fragments rest p q r
      → Selects lib fragments (cons s rest) p q r

-- `path` is the path of a selected field.
abbrev pub SelectsPath : Library → List FragmentDefinition → SelectionSet → Bytes → Bytes → Type 0
SelectsPath lib fragments set p path =
    (q : Bytes) × (r : Bytes) × Selects lib fragments set p q r × (path ≡ extend_path q r)

module _ (lib : Library) (fragments : List FragmentDefinition) where
  -- Each path of `w'` is one of `w` or is selected by the set.
  abbrev Writes : SelectionSet → Bytes → Walk → Walk → Type 0
  Writes set p w w' =
      (path : Bytes)
      → In path w'.info.field_paths
      → In path w.info.field_paths ⊎ SelectsPath lib fragments set p path

  abbrev VisitWrites : Visit → Type 0
  VisitWrites visit =
      (set : SelectionSet) (p : Bytes) (d : ℕ) (w w' : Walk)
      → visit set p d w ≡ some w'
      → Writes set p w w'

  spread-Writes :
      (jump : Visit)
      → VisitWrites jump
      → (name : Bytes) (ds : List Directive) (rest : SelectionSet) (p : Bytes) (d : ℕ) (w w' : Walk)
      → walk_spread lib fragments jump name ds p d w ≡ some w'
      → Writes (cons (fragment_spread name ds) rest) p w w'
  unfolding walk_spread enter_spread
  spread-Writes jump writes name ds rest p d w w' h path m =
      let kept = λ (e : w.info.field_paths ≡ w'.info.field_paths). subst (In path) (sym e) m in
      elim (Bool-cases (is_visited name w.visited)) [
        | inl old ↦ inl (kept (ground arith))
        | inr new ↦ elim (Option-cases (lib.for_name fragments name)) [
          | inl missing ↦ inl (kept (ground arith))
          | inr (f, found) ↦ elim (writes f.selection_set p d _ w' (rw (new, found) at h) path m) [
            | inl before ↦ inl before
            | inr (q, r, s, e) ↦ inr (q, r, spread found s, e)
          ]
        ]
      ]

  mutual
    unfolding walk_set enter_field enter_inline_fragment

    selection-Writes :
        (jump : Visit)
        → VisitWrites jump
        → (s : Selection) (rest : SelectionSet) (p : Bytes) (d : ℕ) (w w' : Walk)
        → walk_selection lib fragments jump s p d w ≡ some w'
        → Writes (cons s rest) p w w'
    selection-Writes jump writes (field alias name args ds set) rest p d w w' h path m =
        let path' = extend_path p (field_name alias name) in
        elim (set-Writes jump writes set path' (d + 1) _ w' h path m) [
          | inr (q, r, s, e) ↦ inr (q, r, below s, e)
          | inl before ↦ elim (In-append-cases w.info.field_paths (path' ∷ []) path before) [
            | inl old ↦ inl old
            | inr (inl new) ↦ inr (p, field_name alias name, here, sym new)
            | inr (inr none_left) ↦ absurd none_left
          ]
        ]
    selection-Writes jump writes (inline_fragment condition ds set) rest p d w w' h path m =
        elim (set-Writes jump writes set p d _ w' h path m) [
          | inl before ↦ inl before
          | inr (q, r, s, e) ↦ inr (q, r, inside s, e)
        ]
    selection-Writes jump writes (fragment_spread name ds) rest p d w w' h path m =
        spread-Writes jump writes name ds rest p d w w' h path m

    set-Writes :
        (jump : Visit)
        → VisitWrites jump
        → (set : SelectionSet) (p : Bytes) (d : ℕ) (w w' : Walk)
        → walk_set lib fragments jump set p d w ≡ some w'
        → Writes set p w w'
    set-Writes jump writes nil p d w w' h path m =
        let e : w ≡ w' = ground arith in inl (subst (λ u. In path u.info.field_paths) (sym e) m)
    set-Writes jump writes (cons s rest) p d w w' h path m =
        let (v, first, more) = >>=-eq-some (walk_selection lib fragments jump s p d w) _ h in
        elim (set-Writes jump writes rest p d v w' more path m) [
          | inl before ↦ selection-Writes jump writes s rest p d w v first path before
          | inr (q, r, s', e) ↦ inr (q, r, later s', e)
        ]

  -- Every path that the walk of a set writes is the path of a field that the set selects.
  pub walk_selections-selects :
      (fuel : ℕ) (set : SelectionSet) (p : Bytes) (d : ℕ) (w w' : Walk)
      → walk_selections lib fragments fuel set p d w ≡ some w'
      → (path : Bytes) → In path w'.info.field_paths
      → In path w.info.field_paths ⊎ SelectsPath lib fragments set p path
  unfolding walk_selections
  walk_selections-selects zero set p d w w' h path m = absurd (ground arith)
  walk_selections-selects (suc fuel) set p d w w' h path m =
      set-Writes (walk_selections lib fragments fuel) (walk_selections-selects fuel) set p d w w' h
        path m
