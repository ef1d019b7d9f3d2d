-- ===== src/Proxy/Text.antt =====
-- The tests on strings of proxy.go, and the texts of its answers.
use gql_firewall.Base.{
  ℕ, Bytes, Bool, true, false, ◌&&◌, ◌||◌, [], ◌∷◌, ◌==◌, leb, if◌then◌else◌, codes, has_prefix,
  has_suffix, to_lower,
}

-- The contexts of sanitizeError.
pub data Context : Type 0 where
  body json query eval : Context
  other : Bytes → Context

unfoldable pub sanitize_error : Context → Bytes
sanitize_error body = codes "invalid request body"
sanitize_error json = codes "invalid JSON in request"
sanitize_error query = codes "invalid GraphQL query"
sanitize_error eval = codes "rule evaluation error"
sanitize_error (other context) = codes "request processing error"

-- `r >= 32 && r <= 126`
unfoldable pub is_printable : ℕ → Bool
is_printable r = leb 32 r && leb r 126

-- The loop over the runes. Every byte of a rune beyond ASCII is above 126, and so is the rune, so the
-- bytes can be tested one by one.
unfoldable pub sanitize_reason : Bytes → Bytes
unfolding is_printable
sanitize_reason [] = []
sanitize_reason (r ∷ reason) =
    let rest = sanitize_reason reason in if is_printable r then r ∷ rest else rest

unfoldable pub is_graphql_path : Bytes → Bool
unfolding has_suffix to_lower
is_graphql_path path = has_suffix (to_lower path) (codes "/graphql")

-- The rest of `ct` behind "application/json": nothing, or a ';' or a ' ' first.
unfoldable pub ends_media_type : Bytes → Bool
ends_media_type [] = true
ends_media_type (next ∷ rest) = next == b';' || next == b' '

abbrev pub drop_prefix : Bytes → Bytes → Bytes
drop_prefix s [] = s
drop_prefix [] (c ∷ p) = []
drop_prefix (d ∷ s) (c ∷ p) = drop_prefix s p

abbrev pub application_json : Bytes
application_json = codes "application/json"

-- On the value of the Content-Type header.
unfoldable pub has_json_content_type : Bytes → Bool
unfolding has_prefix ends_media_type
has_json_content_type ct =
    if has_prefix ct application_json
    then ends_media_type (drop_prefix ct application_json)
    else false

-- `bytes.TrimLeft(bodyBytes, " \t\r\n")`
unfoldable pub is_space : ℕ → Bool
is_space c = c == 32 || (c == 9 || (c == 13 || c == 10))

unfoldable pub trim_left : Bytes → Bytes
unfolding is_space
trim_left [] = []
trim_left (c ∷ s) = let rest = trim_left s in if is_space c then rest else c ∷ s

unfoldable pub starts_with_bracket : Bytes → Bool
starts_with_bracket [] = false
starts_with_bracket (c ∷ s) = c == b'['

unfoldable pub is_batch : Bytes → Bool
unfolding trim_left starts_with_bracket
is_batch text = starts_with_bracket (trim_left text)
