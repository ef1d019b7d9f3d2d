-- ===== src/Parser/Paths/Laws.antt =====
-- Paths that are built from names without dots split into those names again.
use gql_firewall.Base.{
  ◌+◌, ◌≡◌, ◌≢◌, refl, Bytes, List, [], ◌∷◌, ◌++◌, ◌==◌, All, length, length-append, append_assoc,
  append-nil, arith, Bool-cases, inl, inr, ap, ◌∙◌,
}
use gql_firewall.Parser.Paths.{flush, split_from, split_path, extend_path}

-- A GraphQL name: not empty, and without a dot.
abbrev pub IsDotless : Bytes → Type 0
IsDotless = All (λ c. c ≢ b'.')

abbrev pub IsName : Bytes → Type 0
IsName name = (name ≢ []) × IsDotless name

flush-append : (ps qs : List Bytes) (s : Bytes) → flush (ps ++ qs) s ≡ ps ++ flush qs s
unfolding flush
flush-append ps qs [] = refl
flush-append ps qs (c ∷ s) = append_assoc ps qs ((c ∷ s) ∷ [])

split_from-append :
    (ps qs : List Bytes) (current path : Bytes)
    → split_from (ps ++ qs) current path ≡ ps ++ split_from qs current path
unfolding split_from
split_from-append ps qs current [] = flush-append ps qs current
split_from-append ps qs current (c ∷ path) = elim (Bool-cases (c == b'.')) [
  | inl dot ↦ rw (dot, flush-append ps qs current) (split_from-append ps (flush qs current) [] path)
  | inr other ↦ rw other (split_from-append ps qs (current ++ c ∷ []) path)
]

-- Bytes without a dot join the current segment.
split_from-IsDotless :
    (ps : List Bytes) (current name : Bytes)
    → IsDotless name
    → split_from ps current name ≡ flush ps (current ++ name)
unfolding split_from
split_from-IsDotless ps current [] h = rw append-nil
split_from-IsDotless ps current (c ∷ name) h = elim (Bool-cases (c == b'.')) [
  | inl dot ↦ absurd (ground arith)
  | inr other ↦ rw other (
      split_from-IsDotless ps (current ++ c ∷ []) name h.1
      ∙ ap (flush ps) (append_assoc current (c ∷ []) name))
]

-- A dot ends the segment before it.
split_from-dot :
    (ps : List Bytes) (current path rest : Bytes)
    → split_from ps current (path ++ b'.' ∷ rest) ≡ split_from (split_from ps current path) [] rest
unfolding split_from
split_from-dot ps current [] rest = refl
split_from-dot ps current (c ∷ path) rest = elim (Bool-cases (c == b'.')) [
  | inl dot ↦ rw dot (split_from-dot (flush ps current) [] path rest)
  | inr other ↦ rw other (split_from-dot ps (current ++ c ∷ []) path rest)
]

flush-IsName : (ps : List Bytes) (name : Bytes) → IsName name → flush ps name ≡ ps ++ name ∷ []
unfolding flush
flush-IsName ps [] h = absurd (h.0 refl)
flush-IsName ps (c ∷ name) h = refl

-- Extending any path by a field name adds exactly that name to the segments of the path.
split_path-extend_path :
    (prefix name : Bytes)
    → IsName name
    → split_path (extend_path prefix name) ≡ split_path prefix ++ name ∷ []
unfolding split_path extend_path
split_path-extend_path [] name h = split_from-IsDotless [] [] name h.1 ∙ flush-IsName [] name h
split_path-extend_path (c ∷ prefix) name h =
    split_from-dot [] [] (c ∷ prefix) name
    ∙ split_from-IsDotless (split_from [] [] (c ∷ prefix)) [] name h.1
    ∙ flush-IsName (split_from [] [] (c ∷ prefix)) name h

pub length-split_path-extend_path :
    (prefix name : Bytes)
    → IsName name
    → length (split_path (extend_path prefix name)) ≡ length (split_path prefix) + 1
length-split_path-extend_path prefix name h =
    rw (split_path-extend_path prefix name h)
      (omega (arith, length-append (split_path prefix) (name ∷ [])))
