-- ===== src/Ratelimit.antt =====
-- internal/ratelimit/ratelimit.go: token buckets, one for each key. The floats of the source are exact
-- numbers here: a rate is in millionths of a request per second, and `token` small units make one token,
-- so that a rate times nanoseconds is a number of these units. Times are the nanoseconds of a clock that
-- does not go back.
pub mod Credit
pub mod Bounds
pub mod Isolation
pub mod Waiting
pub mod Lifecycle
use gql_firewall.Base.{
  ℕ, ◌+◌, ◌-◌, ◌*◌, Bytes, Bool, true, false, [], ◌∷◌, Option, none, some, Map, lookup, insert, ltb,
  leb, if◌then◌else◌,
}

-- 10 ^ 9 nanoseconds in a second, times 10 ^ 6.
abbrev pub token : ℕ
token = 1000000000000000

abbrev pub five_minutes : ℕ
five_minutes = 300000000000

pub record Config : Type 0 where
  pub requests_per_second : ℕ
  pub burst : ℕ

pub record Bucket : Type 0 where
  pub tokens : ℕ
  pub last_tick : ℕ

pub record Limiter : Type 0 where
  pub buckets : Map Bucket
  pub config : Config

-- `New`, with its defaults for what is not positive.
unfoldable pub new_limiter : Config → Limiter
new_limiter cfg = record {
  buckets = [];
  config = record {
    requests_per_second =
        if leb cfg.requests_per_second 0 then 100000000 else cfg.requests_per_second;
    burst = if leb cfg.burst 0 then 200 else cfg.burst;
  };
}

-- `b, ok := l.buckets[key]`, with a new bucket for a new key; `created` is the clock there.
unfoldable pub bucket_of : Config → ℕ → Option Bucket → Bucket
bucket_of cfg created none = record { tokens = cfg.burst * token; last_tick = created }
bucket_of cfg created (some b) = b

-- The refill for the time since the last tick, up to the burst.
unfoldable pub refill : Config → ℕ → Bucket → Bucket
refill cfg now b =
    let tokens = b.tokens + (now - b.last_tick) * cfg.requests_per_second in
    record {
      tokens = if ltb (cfg.burst * token) tokens then cfg.burst * token else tokens;
      last_tick = now;
    }

-- `if b.tokens < 1 { return false }; b.tokens--; return true`
unfoldable pub take_token : Bucket → Bool × Bucket
take_token b =
    if ltb b.tokens token then (false, b) else (true, record b { tokens = b.tokens - token })

-- `Allow`. The clock reads `created` when a new bucket is made, and then `now`.
unfoldable pub allow : Limiter → Bytes → ℕ → ℕ → Bool × Limiter
unfolding bucket_of refill take_token
allow l key created now =
    let b = bucket_of l.config created (lookup key l.buckets) in
    let (allowed, b') = take_token (refill l.config now b) in
    (allowed, record l { buckets = insert key b' l.buckets })

-- The loop of `cleanup` over the buckets, at one tick of its ticker.
unfoldable pub sweep_buckets : ℕ → Map Bucket → Map Bucket
sweep_buckets now [] = []
sweep_buckets now ((key, b) ∷ buckets) =
    let rest = sweep_buckets now buckets in
    if ltb (b.last_tick + five_minutes) now then rest else (key, b) ∷ rest

unfoldable pub sweep : ℕ → Limiter → Limiter
unfolding sweep_buckets
sweep now l = record l { buckets = sweep_buckets now l.buckets }
