-- ===== src/Parser/Paths.antt =====
-- splitPath (parser.go), and the field paths that the walk builds.
pub mod Laws
use gql_firewall.Base.{Bytes, Bool, List, [], ◌∷◌, ◌++◌, ◌==◌, is_empty, if◌then◌else◌, codes}

-- `if i > start { parts = append(parts, path[start:i]) }`, where `current` is `path[start:i]`.
unfoldable pub flush : List Bytes → Bytes → List Bytes
flush parts current = if is_empty current then parts else parts ++ current ∷ []

-- The loop, over the bytes of `path` that are left.
unfoldable pub split_from : List Bytes → Bytes → Bytes → List Bytes
unfolding flush
split_from parts current [] = flush parts current
split_from parts current (c ∷ path) =
    let closed = split_from (flush parts current) [] path in
    let longer = split_from parts (current ++ c ∷ []) path in if c == b'.' then closed else longer

unfoldable pub split_path : Bytes → List Bytes
unfolding split_from
split_path path = split_from [] [] path

-- `path := fieldName; if prefix != "" { path = prefix + "." + fieldName }` (walkSelections)
unfoldable pub extend_path : Bytes → Bytes → Bytes
extend_path prefix name = if is_empty prefix then name else prefix ++ b'.' ∷ name
