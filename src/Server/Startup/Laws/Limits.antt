-- ===== src/Server/Startup/Laws/Limits.antt =====
-- The rate limit and the body limit that `main` (main.go) makes of its flags.
use gql_firewall.Base.{◌*◌, ◌^◌, ◌<◌, ◌≡◌, ℕ, pos, some, arith, refl}
use gql_firewall.Ratelimit.{Limiter, new_limiter}
use gql_firewall.Server.Startup.{Flags, burst_of, limiter_of, body_limit}

-- With a rate limit below one request per second and no burst of its own, the burst is 200.
limiter_of-slow :
    (f : Flags) (l : Limiter)
    → limiter_of f ≡ some l
    → f.rate_burst ≡ 0
    → f.rate_limit < 1000000
    → l.config.burst ≡ 200
unfolding limiter_of burst_of new_limiter
limiter_of-slow f l h default rate = ground arith

-- The body limit is the flag's number of megabytes, up to 2 ^ 43 - 1 of them; 2 ^ 43 overflows, and there
-- is no limit.
pub body_limit_exact : (mb : ℕ) → mb < 2 ^ 43 → body_limit (pos mb) ≡ mb * 1048576
unfolding body_limit
body_limit_exact mb h = ground arith

body_limit_overflow : body_limit (pos (2 ^ 43)) ≡ 0
unfolding body_limit
body_limit_overflow = refl
