-- ===== src/Parser/Walk/Sweeps.antt =====
-- What a walk of walkSelections (parse.go) does to the marks and the paths: the fragments that it enters
-- against the state that it leaves.
use gql_firewall.Base.{
  >>=-eq-some, In-append-right, ℕ, zero, suc, ◌+◌, Bytes, true, false, List, [], ◌∷◌, some, ◌≡◌,
  refl, inl, inr, Bool-cases, Option-cases, subst, bytes_equal, bytes_equal_refl, bytes_equal_iff,
  arith,
}
use gql_firewall.Parser.Ast.{
  Directive, Selection, field, inline_fragment, fragment_spread, SelectionSet, nil, cons,
  FragmentDefinition, Library,
}
use gql_firewall.Parser.Paths.{extend_path}
use gql_firewall.Parser.Walk.{
  Walk, is_visited, field_name, enter_field, enter_spread, Visit, walk_spread, walk_selection,
  walk_set, walk_selections,
}
use gql_firewall.Parser.Walk.Covers.{
  Covers, CoversOne, Grows, Grows-refl, Grows-trans, Covers-Grows, CoversOne-Grows, Grows-field,
  Grows-inline, Grows-spread,
}

module _ (lib : Library) (fragments : List FragmentDefinition) where
  -- The fragments that were marked between `w` and `w'` are covered in `w'`, at some prefix.
  abbrev pub Settled : Walk → Walk → Type 0
  Settled w w' =
      (n : Bytes) (f : FragmentDefinition)
      → is_visited n w.visited ≡ false
      → is_visited n w'.visited ≡ true
      → lib.for_name fragments n ≡ some f
      → (p : Bytes) × Covers w' p f.selection_set

  Settled-refl : (w : Walk) → Settled w w
  Settled-refl w n f old new found = absurd (ground arith)

  Settled-trans : (u v w : Walk) → Settled u v → Settled v w → Grows v w → Settled u w
  Settled-trans u v w s t g n f old new found = elim (Bool-cases (is_visited n v.visited)) [
    | inl first ↦ let (p, c) = s n f old first found in (p, Covers-Grows v w p f.selection_set g c)
    | inr second ↦ t n f second new found
  ]

  -- What a walk of `set` that takes `w` to `w'` does.
  abbrev pub Sweeps : (Walk → Type 0) → Walk → Walk → Type 0
  Sweeps covers w w' = Grows w w' × covers w' × Settled w w'

  abbrev VisitSweeps : Visit → Type 0
  VisitSweeps visit =
      (set : SelectionSet) (p : Bytes) (d : ℕ) (w w' : Walk)
      → visit set p d w ≡ some w'
      → Sweeps (λ v. Covers v p set) w w'

  -- Marking a name, and walking its fragment if there is one.
  mark_name :
      (name : Bytes) (ds : List Directive) (p : Bytes) (w w' : Walk)
      → Grows (record { info = enter_spread ds w.info; visited = name ∷ w.visited }) w'
      → ((f : FragmentDefinition)
          → lib.for_name fragments name ≡ some f
          → (q : Bytes) × Covers w' q f.selection_set)
      → Settled (record { info = enter_spread ds w.info; visited = name ∷ w.visited }) w'
      → Sweeps (λ v. CoversOne v p (fragment_spread name ds)) w w'
  unfolding is_visited
  mark_name name ds p w w' g own more = (
    Grows-trans w _ w' (Grows-spread ds w name) g,
    g.marks name (rw (bytes_equal_refl name) refl),
    λ n f old new found. elim (Bool-cases (bytes_equal name n)) [
      | inl same ↦ own f (rw ((bytes_equal_iff name n).0 same) found)
      | inr other ↦ more n f (rw other old) new found
    ],
  )

  spread-Sweeps :
      (jump : Visit)
      → VisitSweeps jump
      → (name : Bytes) (ds : List Directive) (p : Bytes) (d : ℕ) (w w' : Walk)
      → walk_spread lib fragments jump name ds p d w ≡ some w'
      → Sweeps (λ v. CoversOne v p (fragment_spread name ds)) w w'
  unfolding walk_spread enter_spread
  spread-Sweeps jump sweeps name ds p d w w' h = elim (Bool-cases (is_visited name w.visited)) [
    | inl old ↦
        let now : Walk = record { info = enter_spread ds w.info; visited = w.visited } in
        let e : now ≡ w' = ground arith in
        subst (Sweeps (λ v. CoversOne v p (fragment_spread name ds)) w) e (
          record { paths = λ q m. m; marks = λ n m. m },
          old,
          λ n f unmarked marked found. absurd (ground arith),
        )
    | inr new ↦ elim (Option-cases (lib.for_name fragments name)) [
      | inl missing ↦
          let now : Walk = record { info = enter_spread ds w.info; visited = name ∷ w.visited } in
          let e : now ≡ w' = ground arith in
          subst (Sweeps (λ v. CoversOne v p (fragment_spread name ds)) w) e (
            mark_name name ds p w now (Grows-refl now) (λ f found. absurd (ground arith))
              (Settled-refl now))
      | inr (f, found) ↦
          let (g, c, s) = sweeps f.selection_set p d _ w' (rw (new, found) at h) in
          mark_name name ds p w w' g
            (λ f' found'.
              let e : f ≡ f' = ground arith in (p, subst (λ x. Covers w' p x.selection_set) e c))
            s
    ]
  ]

  mutual
    unfolding walk_set enter_field

    selection-Sweeps :
        (jump : Visit)
        → VisitSweeps jump
        → (s : Selection) (p : Bytes) (d : ℕ) (w w' : Walk)
        → walk_selection lib fragments jump s p d w ≡ some w'
        → Sweeps (λ v. CoversOne v p s) w w'
    selection-Sweeps jump sweeps (field alias name args ds set) p d w w' h =
        let path = extend_path p (field_name alias name) in
        let (g, c, s) = set-Sweeps jump sweeps set path (d + 1) _ w' h in
        (
          Grows-trans w _ w' (Grows-field (field_name alias name) args ds path d w) g,
          (g.paths path (In-append-right w.info.field_paths (path ∷ []) path (inl refl)), c),
          s,
        )
    selection-Sweeps jump sweeps (inline_fragment condition ds set) p d w w' h =
        let (g, c, s) = set-Sweeps jump sweeps set p d _ w' h in
        (Grows-trans w _ w' (Grows-inline condition ds w) g, c, s)
    selection-Sweeps jump sweeps (fragment_spread name ds) p d w w' h =
        spread-Sweeps jump sweeps name ds p d w w' h

    set-Sweeps :
        (jump : Visit)
        → VisitSweeps jump
        → (set : SelectionSet) (p : Bytes) (d : ℕ) (w w' : Walk)
        → walk_set lib fragments jump set p d w ≡ some w'
        → Sweeps (λ v. Covers v p set) w w'
    set-Sweeps jump sweeps nil p d w w' h =
        let e : w ≡ w' = ground arith in
        subst (Sweeps (λ v. Unit) w) e (Grows-refl w, tt, Settled-refl w)
    set-Sweeps jump sweeps (cons s rest) p d w w' h =
        let (v, first, more) = >>=-eq-some (walk_selection lib fragments jump s p d w) _ h in
        let (g, c, t) = selection-Sweeps jump sweeps s p d w v first in
        let (g', cs, t') = set-Sweeps jump sweeps rest p d v w' more in
        (Grows-trans w v w' g g', (CoversOne-Grows v w' p s g' c, cs), Settled-trans w v w' t t' g')

  pub walk_selections-Sweeps :
      (fuel : ℕ) (set : SelectionSet) (p : Bytes) (d : ℕ) (w w' : Walk)
      → walk_selections lib fragments fuel set p d w ≡ some w'
      → Sweeps (λ v. Covers v p set) w w'
  unfolding walk_selections
  walk_selections-Sweeps zero set p d w w' h = absurd (ground arith)
  walk_selections-Sweeps (suc fuel) set p d w w' h =
      set-Sweeps (walk_selections lib fragments fuel) (walk_selections-Sweeps fuel) set p d w w' h
