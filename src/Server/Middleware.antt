-- ===== src/Server/Middleware.antt =====
-- rateLimitMiddleware and requireAdminAuth (main.go), over the handler that they wrap.
pub mod Laws
use gql_firewall.Base.{
  ◌∷◌, ℕ, zero, suc, Bytes, Bool, not, ◌&&◌, ◌||◌, ◌==◌, [], ltb, length, take, drop, is_empty,
  bytes_equal, insert, if◌then◌else◌, codes,
}
use gql_firewall.Proxy.Http.{Request, Response, get_value, Outcome, replied, http_error}
use gql_firewall.Ratelimit.{Limiter, allow}

-- The blanks of strings.TrimSpace in ASCII; the two that it knows beyond ASCII are not treated.
abbrev pub is_blank : ℕ → Bool
is_blank c = c == 32 || (c == 9 || (c == 10 || (c == 11 || (c == 12 || c == 13))))

abbrev pub trim_start : Bytes → Bytes
trim_start [] = []
trim_start (c ∷ s) = let rest = trim_start s in if is_blank c then rest else c ∷ s

abbrev pub trim_end : Bytes → Bytes
trim_end [] = []
trim_end (c ∷ s) = let rest = trim_end s in if is_blank c && is_empty rest then [] else c ∷ rest

-- `xff[:idx]` for the first comma, and all of it if there is none.
abbrev pub before_comma : Bytes → Bytes
before_comma [] = []
before_comma (c ∷ s) = let rest = before_comma s in if c == b',' then [] else c ∷ rest

-- The first address of X-Forwarded-For; a comma at the very start is not looked at (`idx > 0`).
unfoldable pub first_address : Bytes → Bytes
first_address xff =
    let head = before_comma xff in
    if is_empty head then trim_start (trim_end xff) else trim_start (trim_end head)

-- The key of the request's bucket.
unfoldable pub rate_limit_key : Request → Bytes
unfolding first_address
rate_limit_key r =
    let xff = get_value (codes "X-Forwarded-For") r.headers in
    let api_key = get_value (codes "X-API-Key") r.headers in
    if is_empty api_key then if is_empty xff then r.remote_addr else first_address xff else api_key

unfoldable pub too_many_requests : Response
too_many_requests = record {
  status = 429;
  headers =
      insert (codes "Retry-After") (codes "1")
        (insert (codes "Content-Type") (codes "application/json") []);
  body = codes "{\"error\":\"rate limit exceeded\",\"retry_after\":1}";
}

-- `rateLimitMiddleware`: `next` is the wrapped handler, with its state.
unfoldable pub rate_limit_middleware :
    {S : Type 0}
    → (Request → S → Outcome × S)
    → ℕ
    → ℕ
    → Request
    → Limiter × S
    → Outcome × (Limiter × S)
rate_limit_middleware next created now r (l, s) =
    let (allowed, l') = allow l (rate_limit_key r) created now in
    let (outcome, s') = next r s in
    if allowed then (outcome, (l', s')) else (replied too_many_requests, (l', s))

-- The token of an Authorization header, with or without "Bearer ".
unfoldable pub bearer_token : Bytes → Bytes
bearer_token auth =
    if ltb 7 (length auth) && bytes_equal (take 7 auth) (codes "Bearer ") then drop 7 auth else auth

-- `requireAdminAuth`
unfoldable pub require_admin_auth :
    {S : Type 0} → Bytes → (Request → S → Response × S) → Request → S → Response × S
unfolding bearer_token
require_admin_auth expected next r s =
    let auth = get_value (codes "Authorization") r.headers in
    if is_empty expected
    then next r s
    else if is_empty auth
    then (http_error [] (codes "{\"error\": \"authorization required\"}") 401, s)
    else if not (bytes_equal (bearer_token auth) expected)
    then (http_error [] (codes "{\"error\": \"invalid authorization token\"}") 403, s)
    else next r s
