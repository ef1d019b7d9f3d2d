-- ===== src/Parser/Walk.antt =====
-- walkSelections (parse.go). The walk follows a fragment spread into the fragment's own selection
-- set, so it takes fuel: one unit for each fragment that is entered. `none` means that the fuel ran
-- out, which Walk/Total.antt excludes.
pub mod Rule
pub mod Total
pub mod Metrics
pub mod Blind
pub mod Selected
pub mod Covers
pub mod Sweeps
pub mod Unmissed
use gql_firewall.Base.{
  ℕ, zero, suc, ◌+◌, Bytes, Bool, false, List, [], ◌∷◌, ◌++◌, Option, none, some, length, ltb, ◌==◌,
  ◌||◌, is_empty, bytes_equal, ◌>>=◌, if◌then◌else◌,
}
use gql_firewall.Parser.Ast.{
  Argument, Directive, Selection, field, inline_fragment, fragment_spread, SelectionSet, nil, cons,
  FragmentDefinition, Library,
}
use gql_firewall.Parser.Info.{QueryInfo}
use gql_firewall.Parser.Paths.{extend_path}
use gql_firewall.Parser.Values.{worst, measure_value_depth}

-- The two things that the walk writes: `info`, and the map `visited` of fragment names.
pub record Walk : Type 0 where
  pub info : QueryInfo
  pub visited : List Bytes

-- `visited[name]`
unfoldable pub is_visited : Bytes → List Bytes → Bool
is_visited name [] = false
is_visited name (n ∷ ns) = bytes_equal n name || is_visited name ns

-- `fieldName := s.Name; if s.Alias != "" { fieldName = s.Alias }`
unfoldable pub field_name : Bytes → Bytes → Bytes
field_name alias name = if is_empty alias then name else alias

-- `fieldName[len(fieldName)-1] == 's'`
unfoldable pub ends_in_s : Bytes → Bool
ends_in_s [] = false
ends_in_s (c ∷ []) = c == b's'
ends_in_s (c ∷ d ∷ name) = ends_in_s (d ∷ name)

-- `len(fieldName) > 1 && ...`
unfoldable pub is_plural : Bytes → Bool
unfolding ends_in_s
is_plural name = if ltb 1 (length name) then ends_in_s name else false

-- The loop over `s.Arguments`.
unfoldable pub measure_arguments : List Argument → ℕ → ℕ
measure_arguments [] deepest = deepest
measure_arguments (a ∷ rest) deepest =
    measure_arguments rest (worst deepest (measure_value_depth a.value 1))

-- What a field writes before its own selections are walked.
unfoldable pub enter_field :
    Bytes → List Argument → List Directive → Bytes → ℕ → QueryInfo → QueryInfo
enter_field name arguments directives path depth info = record info {
  field_count = info.field_count + 1;
  directives = info.directives + length directives;
  argument_depth = measure_arguments arguments info.argument_depth;
  lists_requested = if is_plural name then info.lists_requested + 1 else info.lists_requested;
  field_paths = info.field_paths ++ path ∷ [];
  depth = worst info.depth (depth + 1);
}

unfoldable pub enter_inline_fragment : Bytes → List Directive → QueryInfo → QueryInfo
enter_inline_fragment type_condition directives info = record info {
  fragment_spread_count = info.fragment_spread_count + 1;
  directives = info.directives + length directives;
  inline_fragment_types_count =
      if is_empty type_condition
      then info.inline_fragment_types_count
      else info.inline_fragment_types_count + 1;
}

unfoldable pub enter_spread : List Directive → QueryInfo → QueryInfo
enter_spread directives info = record info {
  fragment_spread_count = info.fragment_spread_count + 1;
  directives = info.directives + length directives;
}

abbrev pub Visit : Type 0
Visit = SelectionSet → Bytes → ℕ → Walk → Option Walk

module _ (lib : Library) (fragments : List FragmentDefinition) where
  -- `fragment := doc.Fragments.ForName(name)`, walked by `jump` unless it is nil.
  abbrev pub follow : Visit → Option FragmentDefinition → Bytes → ℕ → Walk → Option Walk
  follow jump none prefix depth w = some w
  follow jump (some f) prefix depth w = jump f.selection_set prefix depth w

  -- The case of a fragment spread.
  unfoldable pub walk_spread : Visit → Bytes → List Directive → Bytes → ℕ → Walk → Option Walk
  walk_spread jump name directives prefix depth w =
      let info = enter_spread directives w.info in
      if is_visited name w.visited
      then some (record { info = info; visited = w.visited })
      else follow jump (lib.for_name fragments name) prefix depth
          (record { info = info; visited = name ∷ w.visited })

  unfoldable mutual
    pub walk_selection : Visit → Selection → Bytes → ℕ → Walk → Option Walk
    walk_selection jump (field alias name arguments directives set) prefix depth w =
        let response = field_name alias name in
        let path = extend_path prefix response in
        walk_set jump set path (depth + 1)
          (record w { info = enter_field response arguments directives path depth w.info })
    walk_selection jump (inline_fragment condition directives set) prefix depth w =
        walk_set jump set prefix depth
          (record w { info = enter_inline_fragment condition directives w.info })
    walk_selection jump (fragment_spread name directives) prefix depth w =
        walk_spread jump name directives prefix depth w

    -- The loop over the selections.
    pub walk_set : Visit → SelectionSet → Bytes → ℕ → Walk → Option Walk
    walk_set jump nil prefix depth w = some w
    walk_set jump (cons s rest) prefix depth w =
        walk_selection jump s prefix depth w >>= λ w'. walk_set jump rest prefix depth w'

  unfoldable pub walk_selections : ℕ → Visit
  unfolding walk_set
  walk_selections zero set prefix depth w = none
  walk_selections (suc fuel) set prefix depth w = walk_set (walk_selections fuel) set prefix depth w
