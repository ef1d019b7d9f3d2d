-- ===== src/Server/Middleware/Laws.antt =====
-- What the two middlewares (main.go) let through.
use gql_firewall.Base.{
  ◌∷◌, ◌++◌, ℕ, zero, suc, ◌&&◌, ap, sym, subst, ◌∙◌, ◌<◌, ◌≤◌, Bytes, false, [], ◌≡◌, ◌≢◌, ◌↔◌,
  ◌⊎◌, inl, inr, refl, ltb, length, take, drop, is_empty, bytes_equal, bytes_equal_iff, arith,
  codes, Bool-cases,
}
use gql_firewall.Proxy.Http.{Request, Response, get_value, Outcome, replied, http_error}
use gql_firewall.Ratelimit.{Limiter, allow, token}
use gql_firewall.Ratelimit.Credit.{credit, allow_iff}
use gql_firewall.Server.Middleware.{
  rate_limit_key, rate_limit_middleware, too_many_requests, bearer_token, require_admin_auth,
}

take-append-drop : (n : ℕ) (s : Bytes) → take n s ++ drop n s ≡ s
take-append-drop zero s = refl
take-append-drop (suc n) [] = refl
take-append-drop (suc n) (c ∷ s) = ap (λ t. c ∷ t) (take-append-drop n s)

-- The header is the token after "Bearer ", or the token alone, which then does not start so itself.
pub IsToken : Bytes → Bytes → Type 0
IsToken expected auth =
    (auth ≡ codes "Bearer " ++ expected)
    ⊎ ((auth ≡ expected) × ((t : Bytes) → t ≢ [] → auth ≢ codes "Bearer " ++ t))

bearer_token_prefixed : (t : Bytes) → t ≢ [] → bearer_token (codes "Bearer " ++ t) ≡ t
unfolding bearer_token bytes_equal
bearer_token_prefixed [] h = absurd (h refl)
bearer_token_prefixed (c ∷ t) h = ground arith

drop-ne-nil : (n : ℕ) (s : Bytes) → n < length s → drop n s ≢ []
drop-ne-nil n [] h = absurd (omega arith)
drop-ne-nil zero (c ∷ s) h = λ e. ground arith
drop-ne-nil (suc n) (c ∷ s) h = drop-ne-nil n s (omega arith)

bearer_token-cases :
    (auth : Bytes)
    → ((t : Bytes) × (t ≢ []) × (auth ≡ codes "Bearer " ++ t) × (bearer_token auth ≡ t))
      ⊎ (bearer_token auth ≡ auth)
unfolding bearer_token
bearer_token-cases auth =
    elim (Bool-cases (ltb 7 (length auth) && bytes_equal (take 7 auth) (codes "Bearer "))) [
      | inr no_ ↦ inr (rw (no_, bearer_token) refl)
      | inl yes_ ↦
          let start : take 7 auth ≡ codes "Bearer " =
            (bytes_equal_iff (take 7 auth) (codes "Bearer ")).0 (ground arith) in
          inl (
            drop 7 auth,
            drop-ne-nil 7 auth (ground arith),
            sym (take-append-drop 7 auth) ∙ ap (λ p. p ++ drop 7 auth) start,
            rw (yes_, bearer_token) refl,
          )
    ]

bearer_token_iff :
    (expected auth : Bytes) → expected ≢ [] → (bearer_token auth ≡ expected) ↔ IsToken expected auth
unfolding IsToken
bearer_token_iff expected auth h = (
  λ e. elim (bearer_token-cases auth) [
    | inl (t, filled, p, q) ↦ inl (p ∙ ap (λ u. codes "Bearer " ++ u) (sym q ∙ e))
    | inr same ↦ inr (
      sym same ∙ e,
      λ t filled p.
          let q : bearer_token auth ≡ t =
            subst (λ a. bearer_token a ≡ t) (sym p) (bearer_token_prefixed t filled) in
          longer t (sym q ∙ same ∙ p),
    )
  ],
  λ k. elim k [
    | inl p ↦ subst (λ a. bearer_token a ≡ expected) (sym p) (bearer_token_prefixed expected h)
    | inr (p, q) ↦ elim (bearer_token-cases auth) [
      | inl (t, filled, p', q') ↦ absurd (q t filled p')
      | inr same ↦ same ∙ p
    ]
  ],
)
  where
    longer : (t : Bytes) → ¬ (t ≡ codes "Bearer " ++ t)
    longer t e = let l = ap length e in omega (arith, l)

pub IsAuthorized : Bytes → Request → Type 0
IsAuthorized expected r = IsToken expected (get_value (codes "Authorization") r.headers)

require_admin_auth_refused :
    {S : Type 0} (expected : Bytes) (next : Request → S → Response × S) (r : Request) (s : S)
    → is_empty expected ≡ false
    → bytes_equal (bearer_token (get_value (codes "Authorization") r.headers)) expected ≡ false
    → ((require_admin_auth expected next r s).1 ≡ s)
      × (((require_admin_auth expected next r s).0.status ≡ 401)
          ⊎ ((require_admin_auth expected next r s).0.status ≡ 403))
unfolding require_admin_auth http_error
require_admin_auth_refused expected next r s closed wrong =
    elim (Bool-cases (is_empty (get_value (codes "Authorization") r.headers))) [
      | inl missing ↦ rw (closed, require_admin_auth, missing) (refl, inl refl)
      | inr present ↦ rw (closed, require_admin_auth, present, wrong) (refl, inr refl)
    ]

given_present :
    (auth expected : Bytes) → expected ≢ [] → bearer_token auth ≡ expected → is_empty auth ≡ false
unfolding bearer_token
given_present [] expected h e = absurd (h (sym e))
given_present (c ∷ auth) expected h e = refl

-- With a configured token, a request whose Authorization header is not that token is answered by 401 or
-- 403 and never reaches the handler; every other request is handled as without the middleware.
pub require_admin_auth-cases :
    {S : Type 0} (expected : Bytes) (next : Request → S → Response × S) (r : Request) (s : S)
    → (((expected ≡ []) ⊎ IsAuthorized expected r)
        × (require_admin_auth expected next r s ≡ next r s))
      ⊎ ((expected ≢ [])
          × ¬ IsAuthorized expected r
          × ((require_admin_auth expected next r s).1 ≡ s)
          × (((require_admin_auth expected next r s).0.status ≡ 401)
              ⊎ ((require_admin_auth expected next r s).0.status ≡ 403)))
unfolding require_admin_auth IsAuthorized
require_admin_auth-cases expected next r s =
    let auth = get_value (codes "Authorization") r.headers in
    elim (Bool-cases (is_empty expected)) [
      | inl unset ↦ inl (inl (ground arith), rw (unset, require_admin_auth) refl)
      | inr closed ↦
          let filled : expected ≢ [] = λ e. ground arith in
          let iff = bearer_token_iff expected auth filled in
          elim (Bool-cases (bytes_equal (bearer_token auth) expected)) [
            | inl right ↦
                let given : bearer_token auth ≡ expected = (bytes_equal_iff _ expected).0 right in
                let present : is_empty auth ≡ false = given_present auth expected filled given in
                inl (inr (iff.0 given), rw (closed, require_admin_auth, present, right) refl)
            | inr wrong ↦
                let differs : bearer_token auth ≢ expected =
                  λ e. ground (arith, (bytes_equal_iff (bearer_token auth) expected).1 e) in
                inr (
                  filled,
                  λ k. differs (iff.1 k),
                  (require_admin_auth_refused expected next r s closed wrong).0,
                  (require_admin_auth_refused expected next r s closed wrong).1,
                )
          ]
    ]

-- With a whole token in the bucket of the request's key the wrapped handler runs on the request, and
-- otherwise the answer is 429 and the handler does not run.
pub rate_limit_middleware-cases :
    {S : Type 0} (next : Request → S → Outcome × S) (created now : ℕ) (r : Request) (l : Limiter)
    (s : S)
    → ((token ≤ credit l (rate_limit_key r) now)
        × (rate_limit_middleware next created now r (l, s)
            ≡ ((next r s).0, ((allow l (rate_limit_key r) created now).1, (next r s).1))))
      ⊎ ((credit l (rate_limit_key r) now < token)
          × (rate_limit_middleware next created now r (l, s)
              ≡ (replied too_many_requests, ((allow l (rate_limit_key r) created now).1, s))))
unfolding rate_limit_middleware
rate_limit_middleware-cases next created now r l s =
    let key = rate_limit_key r in
    let iff = (allow_iff l key created now).0 in
    elim (Bool-cases (allow l key created now).0) [
      | inl yes_ ↦ inl (iff.0 yes_, rw (yes_, rate_limit_middleware) refl)
      | inr no_ ↦
          let few : credit l key now < token = below (λ h. ground (arith, iff.1 h)) in
          inr (few, rw (no_, rate_limit_middleware) refl)
    ]
  where
    below : {n : ℕ} → ¬ (token ≤ n) → n < token
    below h = omega arith
