-- ===== src/Parser/Walk/Unmissed.antt =====
-- What walkSelections (parse.go) leaves behind it: the names in the map `visited` against the fields
-- and the spreads of the sets that it walked.
use gql_firewall.Base.{In, ℕ, Bytes, true, List, [], some, ◌≡◌, refl}
use gql_firewall.Parser.Ast.{
  field, inline_fragment, fragment_spread, SelectionSet, nil, cons, FragmentDefinition, Library,
  FindsListed,
}
use gql_firewall.Parser.Paths.{extend_path}
use gql_firewall.Parser.Walk.{Walk, is_visited, walk_selections}
use gql_firewall.Parser.Walk.Selected.{Selects, here, below, inside, spread, later}
use gql_firewall.Parser.Walk.Sweeps.{walk_selections-Sweeps}
use gql_firewall.Parser.Walk.Covers.{HasField, Covers}

module _ (lib : Library) (fragments : List FragmentDefinition) where
  -- A state that covers a set and all that it marked has every field that the set selects, though maybe
  -- at another prefix.
  selected_at :
      (w : Walk)
      → ((n : Bytes) (f : FragmentDefinition)
          → is_visited n w.visited ≡ true
          → lib.for_name fragments n ≡ some f
          → (p : Bytes) × Covers w p f.selection_set)
      → (set : SelectionSet) (p p' q r : Bytes) → Selects lib fragments set p q r
      → Covers w p' set
      → HasField w.info.field_paths r
  selected_at w closed nil p p' q r s c = elim s [ ]
  selected_at w closed (cons (field alias name args ds set) rest) p p' q r here c = (p', c.0.0)
  selected_at w closed (cons (field alias name args ds set) rest) p p' q r (below s) c =
      selected_at w closed set _ _ q r s c.0.1
  selected_at w closed (cons (inline_fragment condition ds set) rest) p p' q r (inside s) c =
      selected_at w closed set p p' q r s c.0
  selected_at w closed (cons (fragment_spread name ds) rest) p p' q r (spread {f} found s) c =
      let (at, covered) = closed name f c.0 found in
      selected_at w closed f.selection_set p at q r s covered
  selected_at w closed (cons s rest) p p' q r (later t) c = selected_at w closed rest p p' q r t c.1

  -- The walk that starts with no fragment visited misses no field: each response name that the set
  -- selects is among the paths, however the fragments refer to one another.
  pub walk_selections-unmissed :
      (fuel : ℕ) (set : SelectionSet) (p q r : Bytes) (d : ℕ) (w w' : Walk)
      → w.visited ≡ []
      → walk_selections lib fragments fuel set p d w ≡ some w'
      → Selects lib fragments set p q r
      → HasField w'.info.field_paths r
  unfolding is_visited
  walk_selections-unmissed fuel set p q r d w w' fresh h s =
      let (g, c, settled) = walk_selections-Sweeps lib fragments fuel set p d w w' h in
      selected_at w' (λ n f seen found. settled n f (rw fresh refl) seen found) set p p q r s c

-- Without fragments in reach a covered set has the very path of each field that it selects.
covered_at :
    (lib : Library) (w : Walk) (set : SelectionSet) (p q r : Bytes)
    → FindsListed lib
    → Selects lib [] set p q r
    → Covers w p set
    → In (extend_path q r) w.info.field_paths
covered_at lib w nil p q r finds s c = elim s [ ]
covered_at lib w (cons (field alias name args ds set) rest) p q r finds here c = c.0.0
covered_at lib w (cons (field alias name args ds set) rest) p q r finds (below s) c =
    covered_at lib w set _ q r finds s c.0.1
covered_at lib w (cons (inline_fragment condition ds set) rest) p q r finds (inside s) c =
    covered_at lib w set p q r finds s c.0
covered_at lib w (cons (fragment_spread name ds) rest) p q r finds (spread {f} found s) c =
    absurd (finds [] name f found).0
covered_at lib w (cons s rest) p q r finds (later t) c = covered_at lib w rest p q r finds t c.1

-- A field that the set selects outside fragments has its own path among the paths, whatever was visited
-- before.
pub walk_selections-own_path :
    (lib : Library) (fragments : List FragmentDefinition) (fuel : ℕ) (set : SelectionSet)
    (p q r : Bytes) (d : ℕ) (w w' : Walk)
    → FindsListed lib
    → walk_selections lib fragments fuel set p d w ≡ some w'
    → Selects lib [] set p q r
    → In (extend_path q r) w'.info.field_paths
walk_selections-own_path lib fragments fuel set p q r d w w' finds h s =
    let (g, c, settled) = walk_selections-Sweeps lib fragments fuel set p d w w' h in
    covered_at lib w' set p q r finds s c
