-- ===== src/Parser/Walk/Covers.antt =====
-- What the states of walkSelections (parse.go) hold of a selection set: the paths of its fields, and
-- marks on the fragments that it spreads.
use gql_firewall.Base.{In-append-left, In, ℕ, Bytes, true, List, [], ◌∷◌, ◌≡◌, arith}
use gql_firewall.Parser.Ast.{
  Argument, Directive, Selection, field, inline_fragment, fragment_spread, SelectionSet, nil, cons,
}
use gql_firewall.Parser.Paths.{extend_path}
use gql_firewall.Parser.Walk.{
  Walk, is_visited, field_name, enter_field, enter_inline_fragment, enter_spread,
}

-- A field of response name `r` is among the paths.
abbrev pub HasField : List Bytes → Bytes → Type 0
HasField paths r = (p : Bytes) × In (extend_path p r) paths

-- The fields of the set at prefix `p`, fragments left aside, are among the paths, and the fragments that
-- it spreads are visited.
abbrev mutual
  pub Covers : Walk → Bytes → SelectionSet → Type 0
  Covers w p nil = Unit
  Covers w p (cons s rest) = CoversOne w p s × Covers w p rest

  pub CoversOne : Walk → Bytes → Selection → Type 0
  CoversOne w p (field alias name args ds set) =
      let path = extend_path p (field_name alias name) in
      In path w.info.field_paths × Covers w path set
  CoversOne w p (inline_fragment condition ds set) = Covers w p set
  CoversOne w p (fragment_spread name ds) = is_visited name w.visited ≡ true

-- Nothing that `w` holds is missing in `w'`.
pub record Grows (w w' : Walk) : Type 0 where
  pub paths : (path : Bytes) → In path w.info.field_paths → In path w'.info.field_paths
  pub marks : (n : Bytes) → is_visited n w.visited ≡ true → is_visited n w'.visited ≡ true

pub Grows-refl : (w : Walk) → Grows w w
Grows-refl w = record { paths = λ path m. m; marks = λ n m. m }

pub Grows-trans : (u v w : Walk) → Grows u v → Grows v w → Grows u w
Grows-trans u v w g h = record {
  paths = λ path m. h.paths path (g.paths path m);
  marks = λ n m. h.marks n (g.marks n m);
}

mutual
  pub Covers-Grows :
      (w w' : Walk) (p : Bytes) (set : SelectionSet) → Grows w w' → Covers w p set → Covers w' p set
  Covers-Grows w w' p nil g c = tt
  Covers-Grows w w' p (cons s rest) g (c, cs) =
      (CoversOne-Grows w w' p s g c, Covers-Grows w w' p rest g cs)

  pub CoversOne-Grows :
      (w w' : Walk) (p : Bytes) (s : Selection) → Grows w w' → CoversOne w p s → CoversOne w' p s
  CoversOne-Grows w w' p (field alias name args ds set) g (m, cs) =
      (g.paths _ m, Covers-Grows w w' _ set g cs)
  CoversOne-Grows w w' p (inline_fragment condition ds set) g cs = Covers-Grows w w' p set g cs
  CoversOne-Grows w w' p (fragment_spread name ds) g m = g.marks name m

-- What each write of a selection does before the walk goes on.
pub Grows-field :
    (response : Bytes) (args : List Argument) (ds : List Directive) (path : Bytes) (d : ℕ)
    (w : Walk)
    → Grows w (record w { info = enter_field response args ds path d w.info })
unfolding enter_field
Grows-field response args ds path d w = record {
  paths = λ q m. In-append-left w.info.field_paths (path ∷ []) q m;
  marks = λ n m. m;
}

pub Grows-inline :
    (condition : Bytes) (ds : List Directive) (w : Walk)
    → Grows w (record w { info = enter_inline_fragment condition ds w.info })
unfolding enter_inline_fragment
Grows-inline condition ds w = record { paths = λ q m. m; marks = λ n m. m }

pub Grows-spread :
    (ds : List Directive) (w : Walk) (name : Bytes)
    → Grows w (record { info = enter_spread ds w.info; visited = name ∷ w.visited })
unfolding enter_spread is_visited
Grows-spread ds w name = record { paths = λ q m. m; marks = λ n m. rw m (ground arith) }
