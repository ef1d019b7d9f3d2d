-- ===== src/Proxy/Answers/Reader.antt =====
-- A reader of JSON objects whose members are strings, such as the answers of proxy.go: printable ASCII,
-- with the escapes of the quotation mark and of the backslash. It stops at anything else.
use gql_firewall.Base.{
  ℕ, zero, suc, Bytes, Bool, true, false, not, ◌&&◌, ◌||◌, List, [], ◌∷◌, Option, none, some,
  is_empty, ◌>>=◌, ◌==◌, leb, if◌then◌else◌,
}

-- A character that stands in a string as it is.
abbrev pub is_plain : ℕ → Bool
is_plain c = leb 32 c && (leb c 126 && not (c == b'"' || c == b'\\'))

-- A character that an escape stands for.
abbrev pub is_escapable : ℕ → Bool
is_escapable c = c == b'"' || c == b'\\'

abbrev pub push : ℕ → Option (Bytes × Bytes) → Option (Bytes × Bytes)
push c none = none
push c (some (t, rest)) = some (c ∷ t, rest)

-- The rest of a string up to its quotation mark, and what is behind it; `escaped` tells that a backslash
-- was read.
unfoldable pub read_string : Bool → Bytes → Option (Bytes × Bytes)
read_string escaped [] = none
read_string true (c ∷ s) =
    let rest = read_string false s in if is_escapable c then push c rest else none
read_string false (c ∷ s) =
    let rest = read_string (c == b'\\') s in
    if c == b'"'
    then some ([], s)
    else if c == b'\\'
    then rest
    else if is_plain c
    then push c rest
    else none

-- A string, from its first quotation mark on.
unfoldable pub read_quoted : Bytes → Option (Bytes × Bytes)
unfolding read_string
read_quoted [] = none
read_quoted (c ∷ s) = if c == b'"' then read_string false s else none

abbrev pub Member : Type 0
Member = Bytes × Bytes

-- `: "value"`
unfoldable pub read_value : Bytes → Bytes → Option (Member × Bytes)
unfolding read_quoted
read_value name (c ∷ d ∷ s) =
    if c == b':' && d == b' '
    then (read_quoted s >>= λ (value, rest). some ((name, value), rest))
    else none
read_value name s = none

-- `"name": "value"`
unfoldable pub read_member : Bytes → Option (Member × Bytes)
unfolding read_value
read_member s = read_quoted s >>= λ (name, rest). read_value name rest

-- What is behind a member: the closing brace, with nothing behind it but an end of line, or a comma and
-- what `more` reads.
unfoldable pub read_more : (Bytes → Option (List Member)) → Member → Bytes → Option (List Member)
read_more more m [] = none
read_more more m (c ∷ []) = if c == b'}' then some (m ∷ []) else none
read_more more m (c ∷ d ∷ s) =
    if c == b',' && d == b' '
    then (more s >>= λ ms. some (m ∷ ms))
    else if c == b'}' && (d == b'\n' && is_empty s)
    then some (m ∷ [])
    else none

-- The members, at most as many as the fuel.
unfoldable pub read_members : ℕ → Bytes → Option (List Member)
unfolding read_member read_more
read_members zero s = none
read_members (suc n) s = read_member s >>= λ (m, rest). read_more (read_members n) m rest

-- A whole object, of two members at most.
unfoldable pub read_object : Bytes → Option (List Member)
unfolding read_members
read_object [] = none
read_object (c ∷ s) = if c == b'{' then read_members 2 s else none
