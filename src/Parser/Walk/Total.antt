-- ===== src/Parser/Walk/Total.antt =====
-- The walk (walkSelections, parse.go) ends on every document, circular fragments included: the map
-- `visited` lets each fragment be entered once, so fuel beyond the number of fragments is enough.
use gql_firewall.Base.{
  ℕ, zero, suc, ◌≤◌, ◌<◌, Bytes, true, false, List, [], ◌∷◌, Option, some, ◌≡◌, refl, inl, inr,
  Bool-cases, Option-cases, length, In, bytes_equal, bytes_equal_refl, arith, if◌then◌else◌,
}
use gql_firewall.Parser.Ast.{
  Directive, Selection, field, inline_fragment, fragment_spread, SelectionSet, nil, cons,
  FragmentDefinition, Library, FindsListed,
}
use gql_firewall.Parser.Walk.{
  Walk, is_visited, enter_spread, Visit, walk_spread, walk_selection, walk_set, walk_selections,
}

-- The fragments of the document that can still be entered.
pub unvisited : List FragmentDefinition → List Bytes → ℕ
unvisited [] seen = 0
unvisited (f ∷ fs) seen =
    if is_visited f.name seen then unvisited fs seen else suc (unvisited fs seen)

pub unvisited-le-length :
    (fs : List FragmentDefinition) (seen : List Bytes) → unvisited fs seen ≤ length fs
unfolding unvisited
unvisited-le-length [] seen = omega arith
unvisited-le-length (f ∷ fs) seen = ground (arith, unvisited-le-length fs seen)

unvisited-cons-le :
    (fs : List FragmentDefinition) (n : Bytes) (seen : List Bytes)
    → unvisited fs (n ∷ seen) ≤ unvisited fs seen
unfolding unvisited is_visited
unvisited-cons-le [] n seen = omega arith
unvisited-cons-le (f ∷ fs) n seen = ground (arith, unvisited-cons-le fs n seen)

-- Marking the name of a listed fragment that was not visited leaves one less.
unvisited-cons-lt :
    (fs : List FragmentDefinition) (f : FragmentDefinition) (seen : List Bytes)
    → In f fs
    → is_visited f.name seen ≡ false
    → unvisited fs (f.name ∷ seen) < unvisited fs seen
unfolding unvisited is_visited
unvisited-cons-lt [] f seen m new = absurd m
unvisited-cons-lt (g ∷ fs) f seen (inl e) new =
    let here : is_visited g.name seen ≡ false = rw e new in
    let same : bytes_equal f.name g.name ≡ true = rw e (bytes_equal_refl f.name) in
    ground (arith, unvisited-cons-le fs f.name seen)
unvisited-cons-lt (g ∷ fs) f seen (inr m) new = ground (arith, unvisited-cons-lt fs f seen m new)

module _ (lib : Library) (fragments : List FragmentDefinition) (finds : FindsListed lib) where
  -- The run gives a state, in which no fewer fragments are visited.
  abbrev Ends : Option Walk → ℕ → Type 0
  Ends result most = (w : Walk) × (result ≡ some w) × (unvisited fragments w.visited ≤ most)

  abbrev VisitEnds : ℕ → Visit → Type 0
  VisitEnds fuel visit =
      (set : SelectionSet) (p : Bytes) (d : ℕ) (w : Walk)
      → unvisited fragments w.visited < fuel
      → Ends (visit set p d w) (unvisited fragments w.visited)

  spread-Ends :
      (fuel : ℕ) (jump : Visit)
      → VisitEnds fuel jump
      → (name : Bytes) (ds : List Directive) (p : Bytes) (d : ℕ) (w : Walk)
      → unvisited fragments w.visited < suc fuel
      → Ends (walk_spread lib fragments jump name ds p d w) (unvisited fragments w.visited)
  unfolding walk_spread
  spread-Ends fuel jump ends name ds p d w h =
      let less = unvisited-cons-le fragments name w.visited in
      elim (Bool-cases (is_visited name w.visited)) [
        | inl old ↦
            (record { info = enter_spread ds w.info; visited = w.visited }, rw old, omega arith)
        | inr new ↦ elim (Option-cases (lib.for_name fragments name)) [
          | inl missing ↦ (
            record { info = enter_spread ds w.info; visited = name ∷ w.visited },
            rw (new, missing),
            omega arith,
          )
          | inr (f, found) ↦
              let (listed, named) = finds fragments name f found in
              let fewer : unvisited fragments (name ∷ w.visited) < unvisited fragments w.visited =
                rw (← named) (unvisited-cons-lt fragments f w.visited listed (rw named new)) in
              let (w', run, bound) =
                ends f.selection_set p d
                  (record { info = enter_spread ds w.info; visited = name ∷ w.visited })
                  (omega arith) in
              (w', rw (new, found) run, omega arith)
        ]
      ]

  mutual
    unfolding walk_set

    selection-Ends :
        (fuel : ℕ) (jump : Visit)
        → VisitEnds fuel jump
        → (s : Selection) (p : Bytes) (d : ℕ) (w : Walk) → unvisited fragments w.visited < suc fuel
        → Ends (walk_selection lib fragments jump s p d w) (unvisited fragments w.visited)
    selection-Ends fuel jump ends (field alias name args ds set) p d w h =
        set-Ends fuel jump ends set _ _ _ h
    selection-Ends fuel jump ends (inline_fragment condition ds set) p d w h =
        set-Ends fuel jump ends set p d _ h
    selection-Ends fuel jump ends (fragment_spread name ds) p d w h =
        spread-Ends fuel jump ends name ds p d w h

    set-Ends :
        (fuel : ℕ) (jump : Visit)
        → VisitEnds fuel jump
        → (set : SelectionSet) (p : Bytes) (d : ℕ) (w : Walk)
        → unvisited fragments w.visited < suc fuel
        → Ends (walk_set lib fragments jump set p d w) (unvisited fragments w.visited)
    set-Ends fuel jump ends nil p d w h = (w, refl, omega arith)
    set-Ends fuel jump ends (cons s rest) p d w h =
        let (v, first, bound) = selection-Ends fuel jump ends s p d w h in
        let (w', more, bound') = set-Ends fuel jump ends rest p d v (omega arith) in
        (w', rw first more, omega arith)

  selections_end :
      (fuel : ℕ) (set : SelectionSet) (p : Bytes) (d : ℕ) (w : Walk)
      → unvisited fragments w.visited < fuel
      → Ends (walk_selections lib fragments fuel set p d w) (unvisited fragments w.visited)
  unfolding walk_selections
  selections_end zero set p d w h = elim h [ ]
  selections_end (suc fuel) set p d w h =
      set-Ends fuel (walk_selections lib fragments fuel) (selections_end fuel) set p d w h

-- With more fuel than the document has fragments the walk of any selection set gives a result,
-- whatever was visited before and however the fragments refer to one another.
pub walk_selections_total :
    (lib : Library) (fragments : List FragmentDefinition) (fuel : ℕ) (set : SelectionSet)
    (p : Bytes) (d : ℕ) (w : Walk)
    → FindsListed lib
    → length fragments < fuel
    → (w' : Walk) × (walk_selections lib fragments fuel set p d w ≡ some w')
walk_selections_total lib fragments fuel set p d w finds h =
    let (w', run, bound) =
      selections_end lib fragments finds fuel set p d w
        (omega (arith, unvisited-le-length fragments w.visited)) in
    (w', run)
