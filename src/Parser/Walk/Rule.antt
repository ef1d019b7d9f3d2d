-- ===== src/Parser/Walk/Rule.antt =====
-- One induction over the walk (walkSelections, parse.go) for all that it keeps: a relation between
-- the state before and the state after that each single write respects, holds of the whole walk.
use gql_firewall.Base.{
  >>=-eq-some, ℕ, zero, suc, ◌+◌, Bytes, List, ◌∷◌, some, ◌≡◌, refl, ◌⊎◌, inl, inr, Bool-cases,
  Option-cases, subst, arith,
}
use gql_firewall.Parser.Ast.{
  Argument, Directive, Selection, field, inline_fragment, fragment_spread, SelectionSet, nil, cons,
  FragmentDefinition, Library,
}
use gql_firewall.Parser.Paths.{extend_path}
use gql_firewall.Parser.Walk.{
  Walk, is_visited, field_name, enter_field, enter_inline_fragment, enter_spread, Visit,
  walk_spread, walk_selection, walk_set, walk_selections,
}

-- Every field of a selection set, at any depth, has an alias and a name in `Q`.
abbrev mutual
  pub FieldsIn : (Bytes → Bytes → Type 0) → SelectionSet → Type 0
  FieldsIn Q nil = Unit
  FieldsIn Q (cons s rest) = FieldIn Q s × FieldsIn Q rest

  pub FieldIn : (Bytes → Bytes → Type 0) → Selection → Type 0
  FieldIn Q (field alias name arguments directives set) = Q alias name × FieldsIn Q set
  FieldIn Q (inline_fragment condition directives set) = FieldsIn Q set
  FieldIn Q (fragment_spread name directives) = Unit

abbrev pub AnyName : Bytes → Bytes → Type 0
AnyName alias name = Unit

mutual
  FieldsIn-AnyName : (set : SelectionSet) → FieldsIn AnyName set
  FieldsIn-AnyName nil = tt
  FieldsIn-AnyName (cons s rest) = (FieldIn-AnyName s, FieldsIn-AnyName rest)

  FieldIn-AnyName : (s : Selection) → FieldIn AnyName s
  FieldIn-AnyName (field alias name arguments directives set) = (tt, FieldsIn-AnyName set)
  FieldIn-AnyName (inline_fragment condition directives set) = FieldsIn-AnyName set
  FieldIn-AnyName (fragment_spread name directives) = tt

pub every_field : (set : SelectionSet) → FieldsIn AnyName set
every_field set = FieldsIn-AnyName set

-- `R p d w w'`: the walk at prefix `p` and depth `d` may take the state `w` to `w'`.
pub record IsKept (Q : Bytes → Bytes → Type 0) (R : Bytes → ℕ → Walk → Walk → Type 0) : Type 0 where
  pub stays : (p : Bytes) (d : ℕ) (w : Walk) → R p d w w
  pub joins : (p : Bytes) (d : ℕ) (u v w : Walk) → R p d u v → R p d v w → R p d u w
  pub at_field :
      (alias name : Bytes) (args : List Argument) (ds : List Directive) (p : Bytes) (d : ℕ)
      (w w' : Walk)
      → Q alias name
      → R
          (extend_path p (field_name alias name))
          (d + 1)
          (record w {
            info =
                enter_field
                  (field_name alias name)
                  args
                  ds
                  (extend_path p (field_name alias name))
                  d
                  w.info;
          })
          w'
      → R p d w w'
  pub at_inline :
      (condition : Bytes) (ds : List Directive) (p : Bytes) (d : ℕ) (w w' : Walk)
      → R p d (record w { info = enter_inline_fragment condition ds w.info }) w'
      → R p d w w'
  pub at_spread :
      (name : Bytes) (ds : List Directive) (p : Bytes) (d : ℕ) (w w' : Walk) (seen : List Bytes)
      → (seen ≡ w.visited) ⊎ (seen ≡ name ∷ w.visited)
      → R p d (record { info = enter_spread ds w.info; visited = seen }) w'
      → R p d w w'

module _ (lib : Library) (fragments : List FragmentDefinition) (Q : Bytes → Bytes → Type 0)
    (R : Bytes → ℕ → Walk → Walk → Type 0) (kept : IsKept Q R)
    (named : (n : Bytes) (f : FragmentDefinition)
      → lib.for_name fragments n ≡ some f
      → FieldsIn Q f.selection_set) where
  abbrev VisitKeeps : Visit → Type 0
  VisitKeeps visit =
      (set : SelectionSet) (p : Bytes) (d : ℕ) (w w' : Walk)
      → FieldsIn Q set
      → visit set p d w ≡ some w'
      → R p d w w'

  spread_keeps :
      (jump : Visit)
      → VisitKeeps jump
      → (name : Bytes) (ds : List Directive) (p : Bytes) (d : ℕ) (w w' : Walk)
      → walk_spread lib fragments jump name ds p d w ≡ some w'
      → R p d w w'
  unfolding walk_spread
  spread_keeps jump keeps name ds p d w w' h = elim (Bool-cases (is_visited name w.visited)) [
    | inl old ↦
        let now : Walk = record { info = enter_spread ds w.info; visited = w.visited } in
        let e : now ≡ w' = ground arith in
        kept.at_spread name ds p d w w' w.visited (inl refl)
          (subst (λ v. R p d now v) e (kept.stays p d now))
    | inr new ↦
        let now : Walk = record { info = enter_spread ds w.info; visited = name ∷ w.visited } in
        kept.at_spread name ds p d w w' (name ∷ w.visited) (inr refl)
          (elim (Option-cases (lib.for_name fragments name)) [
            | inl missing ↦
                let e : now ≡ w' = ground arith in subst (λ v. R p d now v) e (kept.stays p d now)
            | inr (f, found) ↦
                keeps f.selection_set p d now w' (named name f found) (rw (new, found) at h)
          ])
  ]

  mutual
    unfolding walk_set

    selection_keeps :
        (jump : Visit)
        → VisitKeeps jump
        → (s : Selection) (p : Bytes) (d : ℕ) (w w' : Walk) → FieldIn Q s
        → walk_selection lib fragments jump s p d w ≡ some w'
        → R p d w w'
    selection_keeps jump keeps (field alias name args ds set) p d w w' (q, qs) h =
        kept.at_field alias name args ds p d w w' q (set_keeps jump keeps set _ _ _ w' qs h)
    selection_keeps jump keeps (inline_fragment condition ds set) p d w w' qs h =
        kept.at_inline condition ds p d w w' (set_keeps jump keeps set p d _ w' qs h)
    selection_keeps jump keeps (fragment_spread name ds) p d w w' qs h =
        spread_keeps jump keeps name ds p d w w' h

    set_keeps :
        (jump : Visit)
        → VisitKeeps jump
        → (set : SelectionSet) (p : Bytes) (d : ℕ) (w w' : Walk) → FieldsIn Q set
        → walk_set lib fragments jump set p d w ≡ some w'
        → R p d w w'
    set_keeps jump keeps nil p d w w' qs h =
        let e : w ≡ w' = ground arith in subst (λ v. R p d w v) e (kept.stays p d w)
    set_keeps jump keeps (cons s rest) p d w w' (q, qs) h =
        let (v, first, more) = >>=-eq-some (walk_selection lib fragments jump s p d w) _ h in
        kept.joins p d w v w' (selection_keeps jump keeps s p d w v q first)
          (set_keeps jump keeps rest p d v w' qs more)

  pub walk_selections-keeps :
      (fuel : ℕ) (set : SelectionSet) (p : Bytes) (d : ℕ) (w w' : Walk)
      → FieldsIn Q set
      → walk_selections lib fragments fuel set p d w ≡ some w'
      → R p d w w'
  unfolding walk_selections
  walk_selections-keeps zero set p d w w' qs h = ground arith
  walk_selections-keeps (suc fuel) set p d w w' qs h =
      set_keeps (walk_selections lib fragments fuel) (walk_selections-keeps fuel) set p d w w' qs h
