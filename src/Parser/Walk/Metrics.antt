-- ===== src/Parser/Walk/Metrics.antt =====
-- What the numbers of a walk (walkSelections, parse.go) mean: `FieldCount` and `Depth` are functions
-- of `FieldPaths`, and no number ever falls.
use gql_firewall.Base.{
  ℕ, ◌+◌, ◌≤◌, max, Bytes, List, [], ◌∷◌, ◌++◌, some, ◌≡◌, refl, length, length-append, arith,
}
use gql_firewall.Parser.Ast.{Argument, Directive, SelectionSet, FragmentDefinition, Library}
use gql_firewall.Parser.Info.{QueryInfo}
use gql_firewall.Parser.Paths.{extend_path, split_path}
use gql_firewall.Parser.Paths.Laws.{IsName, length-split_path-extend_path}
use gql_firewall.Parser.Values.{worst, worst-max, measure_value_depth}
use gql_firewall.Parser.Walk.{
  Walk, field_name, measure_arguments, enter_field, enter_inline_fragment, enter_spread,
  walk_selections,
}
use gql_firewall.Parser.Walk.Rule.{FieldsIn, AnyName, every_field, IsKept, walk_selections-keeps}

-- The number of segments of the deepest path.
unfoldable pub deepest : List Bytes → ℕ
deepest [] = 0
deepest (p ∷ ps) = max (length (split_path p)) (deepest ps)

pub deepest-append : (ps qs : List Bytes) → deepest (ps ++ qs) ≡ max (deepest ps) (deepest qs)
unfolding deepest
deepest-append [] qs = omega arith
deepest-append (p ∷ ps) qs = omega (arith, deepest-append ps qs)

abbrev CountsPaths : Bytes → ℕ → Walk → Walk → Type 0
CountsPaths p d w w' =
    w'.info.field_count + length w.info.field_paths
    ≡ w.info.field_count + length w'.info.field_paths

CountsPaths-IsKept : IsKept AnyName CountsPaths
unfolding enter_field enter_inline_fragment enter_spread
CountsPaths-IsKept = record {
  stays = λ p d w. refl;
  joins = λ p d u v w h k. omega arith;
  at_field = λ alias name args ds p d w w' q h.
      omega (arith, length-append w.info.field_paths (extend_path p (field_name alias name) ∷ []));
  at_inline = λ condition ds p d w w' h. h;
  at_spread = λ name ds p d w w' seen e h. h;
}

-- At a prefix of `d` segments.
abbrev MeasuresPaths : Bytes → ℕ → Walk → Walk → Type 0
MeasuresPaths p d w w' =
    length (split_path p) ≡ d
    → w.info.depth ≡ deepest w.info.field_paths
    → w'.info.depth ≡ deepest w'.info.field_paths

-- The names under which the response returns the fields.
abbrev pub HasName : Bytes → Bytes → Type 0
HasName alias name = IsName (field_name alias name)

enter_field-deepest :
    (name : Bytes) (args : List Argument) (ds : List Directive) (p : Bytes) (d : ℕ)
    (info : QueryInfo)
    → IsName name
    → length (split_path p) ≡ d
    → info.depth ≡ deepest info.field_paths
    → (enter_field name args ds (extend_path p name) d info).depth
      ≡ deepest (enter_field name args ds (extend_path p name) d info).field_paths
unfolding enter_field deepest
enter_field-deepest name args ds p d info q h k = omega (
  arith,
  worst-max info.depth (d + 1),
  deepest-append info.field_paths (extend_path p name ∷ []),
  length-split_path-extend_path p name q,
)

MeasuresPaths-IsKept : IsKept HasName MeasuresPaths
unfolding enter_inline_fragment enter_spread
MeasuresPaths-IsKept = record {
  stays = λ p d w h k. k;
  joins = λ p d u v w first second h k. second h (first h k);
  at_field = λ alias name args ds p d w w' q next h k.
      next (omega (arith, length-split_path-extend_path p (field_name alias name) q))
        (enter_field-deepest (field_name alias name) args ds p d w.info q h k);
  at_inline = λ condition ds p d w w' next h k. next h k;
  at_spread = λ name ds p d w w' seen e next h k. next h k;
}

-- No metric of the second report is below that of the first.
pub record Grows (i j : QueryInfo) : Type 0 where
  pub depth : i.depth ≤ j.depth
  pub field_count : i.field_count ≤ j.field_count
  pub directives : i.directives ≤ j.directives
  pub argument_depth : i.argument_depth ≤ j.argument_depth
  pub lists_requested : i.lists_requested ≤ j.lists_requested
  pub fragment_spread_count : i.fragment_spread_count ≤ j.fragment_spread_count
  pub inline_fragment_types_count : i.inline_fragment_types_count ≤ j.inline_fragment_types_count

pub measure_arguments-ge : (args : List Argument) (m : ℕ) → m ≤ measure_arguments args m
unfolding measure_arguments
measure_arguments-ge [] m = omega arith
measure_arguments-ge (a ∷ args) m = omega (
  arith,
  worst-max m (measure_value_depth a.value 1),
  measure_arguments-ge args (worst m (measure_value_depth a.value 1)),
)

abbrev GrowsWalk : Bytes → ℕ → Walk → Walk → Type 0
GrowsWalk p d w w' = Grows w.info w'.info

Grows-trans : {i j k : QueryInfo} → Grows i j → Grows j k → Grows i k
Grows-trans g h = omega arith

enter_field-Grows :
    (name : Bytes) (args : List Argument) (ds : List Directive) (path : Bytes) (d : ℕ)
    (info : QueryInfo)
    → Grows info (enter_field name args ds path d info)
unfolding enter_field
enter_field-Grows name args ds path d info =
    ground (arith, worst-max info.depth (d + 1), measure_arguments-ge args info.argument_depth)

enter_inline_fragment-Grows :
    (condition : Bytes) (ds : List Directive) (info : QueryInfo)
    → Grows info (enter_inline_fragment condition ds info)
unfolding enter_inline_fragment
enter_inline_fragment-Grows condition ds info = ground arith

enter_spread-Grows : (ds : List Directive) (info : QueryInfo) → Grows info (enter_spread ds info)
unfolding enter_spread
enter_spread-Grows ds info = ground arith

GrowsWalk-IsKept : IsKept AnyName GrowsWalk
GrowsWalk-IsKept = record {
  stays = λ p d w. omega arith;
  joins = λ p d u v w g h. Grows-trans g h;
  at_field =
      λ alias name args ds p d w w' q h. Grows-trans (enter_field-Grows _ args ds _ d w.info) h;
  at_inline =
      λ condition ds p d w w' h. Grows-trans (enter_inline_fragment-Grows condition ds w.info) h;
  at_spread = λ name ds p d w w' seen e h. Grows-trans (enter_spread-Grows ds w.info) h;
}

module _ (lib : Library) (fragments : List FragmentDefinition) (fuel : ℕ) (set : SelectionSet)
    (p : Bytes) (d : ℕ) (w w' : Walk)
    (run : walk_selections lib fragments fuel set p d w ≡ some w') where
  -- The walk adds one to `FieldCount` for each path that it appends.
  pub walk_selections-field_count :
      w'.info.field_count + length w.info.field_paths
      ≡ w.info.field_count + length w'.info.field_paths
  walk_selections-field_count =
      walk_selections-keeps lib fragments AnyName CountsPaths CountsPaths-IsKept
        (λ n f e. every_field f.selection_set) fuel set p d w w' (every_field set) run

  pub walk_selections-Grows : Grows w.info w'.info
  walk_selections-Grows =
      walk_selections-keeps lib fragments AnyName GrowsWalk GrowsWalk-IsKept
        (λ n f e. every_field f.selection_set) fuel set p d w w' (every_field set) run

  -- Where the fields have names without dots, `Depth` is the number of segments of the deepest path.
  pub walk_selections-depth :
      ((n : Bytes) (f : FragmentDefinition)
        → lib.for_name fragments n ≡ some f
        → FieldsIn HasName f.selection_set)
      → FieldsIn HasName set
      → length (split_path p) ≡ d
      → w.info.depth ≡ deepest w.info.field_paths
      → w'.info.depth ≡ deepest w'.info.field_paths
  walk_selections-depth named q =
      walk_selections-keeps lib fragments HasName MeasuresPaths MeasuresPaths-IsKept named fuel set
        p d w w' q run
