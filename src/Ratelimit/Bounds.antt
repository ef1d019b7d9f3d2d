-- ===== src/Ratelimit/Bounds.antt =====
-- The limiter over time (ratelimit.go): sequences of `Allow` and of the clean-up's ticks, each of which
-- holds the lock from end to end.
use gql_firewall.Base.{
  ◌+◌, ◌-◌, ◌*◌, ◌≤◌, ◌≡◌, ◌∙◌, ℕ, Bytes, ◌&&◌, List, [], ◌∷◌, HasKeysOnce, insert-HasKeysOnce,
  lookup, bytes_equal, bytes_equal_iff, arith, if◌then◌else◌, refl, ap, subst, inl, inr, Bool-cases,
}
use gql_firewall.Ratelimit.{token, five_minutes, Config, Limiter, new_limiter, allow, sweep}
use gql_firewall.Ratelimit.Credit.{
  credit_of, credit, credit_of-le, credit_of-later, allow_iff, sweep_buckets-HasKeysOnce,
  credit-sweep,
}
use native.Mathlib.Nat.{add-mul}

pub data LimiterEvent : Type 0 where
  request : (key : Bytes) (created now : ℕ) → LimiterEvent
  tick : (now : ℕ) → LimiterEvent

abbrev pub step : LimiterEvent → Limiter → Limiter
step (request key created now) l = (allow l key created now).1
step (tick now) l = sweep now l

-- How many of a key's requests are granted.
unfoldable pub granted : Bytes → List LimiterEvent → Limiter → ℕ
granted key [] l = 0
granted key (request k created now ∷ es) l =
    (if bytes_equal k key && (allow l k created now).0 then 1 else 0)
    + granted key es (allow l k created now).1
granted key (tick now ∷ es) l = granted key es (sweep now l)

-- The events follow each other from one time to another.
abbrev pub InOrder : ℕ → ℕ → List LimiterEvent → Type 0
InOrder from to [] = from ≤ to
InOrder from to (request k created now ∷ es) = (from ≤ now) × InOrder now to es
InOrder from to (tick now ∷ es) = (from ≤ now) × InOrder now to es

InOrder-le : (from to : ℕ) (es : List LimiterEvent) → InOrder from to es → from ≤ to
InOrder-le from to [] h = h
InOrder-le from to (request k created now ∷ es) h =
    let rest = InOrder-le now to es h.1 in omega (arith, h.0)
InOrder-le from to (tick now ∷ es) h = let rest = InOrder-le now to es h.1 in omega (arith, h.0)

pub allow-HasKeysOnce :
    (l : Limiter) (key : Bytes) (created now : ℕ)
    → HasKeysOnce l.buckets
    → HasKeysOnce (allow l key created now).1.buckets
unfolding allow
allow-HasKeysOnce l key created now h = insert-HasKeysOnce key _ l.buckets h

allow-config :
    (l : Limiter) (key : Bytes) (created now : ℕ) → (allow l key created now).1.config ≡ l.config
unfolding allow
allow-config l key created now = refl

spend_own :
    (l : Limiter) (key : Bytes) (created now : ℕ)
    → credit l key now
      ≡ credit (allow l key created now).1 key now
        + (if (allow l key created now).0 then 1 else 0) * token
spend_own l key created now =
    let spent = (allow_iff l key created now).1 in
    elim (Bool-cases (allow l key created now).0) [
      | inl yes_ ↦ rw yes_ (rw yes_ at spent)
      | inr no_ ↦ rw no_ (rw no_ at spent)
    ]

-- A request takes a token from its own key if it is granted, and nothing from another key.
spend :
    (l : Limiter) (key k : Bytes) (created now : ℕ)
    → credit l key now
      ≡ credit (allow l k created now).1 key now
        + (if bytes_equal k key && (allow l k created now).0 then 1 else 0) * token
spend l key k created now = elim (Bool-cases (bytes_equal k key)) [
  | inl same ↦ rw same (
      subst
        (λ j.
          credit l j now
          ≡ credit (allow l k created now).1 j now
            + (if (allow l k created now).0 then 1 else 0) * token)
        ((bytes_equal_iff k key).0 same) (spend_own l k created now))
  | inr other ↦
      let kept = (allow_iff l k created now).2 key other in
      rw other
        (ground (arith, ap (λ f. credit_of l.config f now) kept, allow-config l k created now))
]

rate_step :
    (rate from now to : ℕ)
    → from ≤ now
    → now ≤ to
    → (to - from) * rate ≡ (now - from) * rate + (to - now) * rate
rate_step rate from now to h h' =
    ap (λ n. n * rate) (omega arith) ∙ add-mul (now - from) (to - now) rate

granted-le_credit :
    (key : Bytes) (es : List LimiterEvent) (l : Limiter) (from to : ℕ)
    → HasKeysOnce l.buckets
    → l.config.burst * token ≤ five_minutes * l.config.requests_per_second
    → InOrder from to es
    → granted key es l * token ≤ credit l key from + (to - from) * l.config.requests_per_second
unfolding granted sweep allow
granted-le_credit key [] l from to once enough order = omega arith
granted-le_credit key (request k created now ∷ es) l from to once enough (h, order) =
    let l' = (allow l k created now).1 in
    let config = allow-config l k created now in
    let rest =
      granted-le_credit key es l' now to (allow-HasKeysOnce l k created now once) (rw config enough)
        order in
    omega (
      arith,
      rw config at rest,
      spend l key k created now,
      credit_of-later l.config (lookup key l.buckets) from now,
      rate_step l.config.requests_per_second from now to h (InOrder-le now to es order),
    )
granted-le_credit key (tick now ∷ es) l from to once enough (h, order) =
    let l' = sweep now l in
    let rest : granted key es l' * token
        ≤ credit l' key now + (to - now) * l.config.requests_per_second =
      granted-le_credit key es l' now to (sweep_buckets-HasKeysOnce now l.buckets once) enough
        order in
    omega (
      arith,
      rest,
      credit-sweep l key now now once enough (omega arith),
      credit_of-later l.config (lookup key l.buckets) from now,
      rate_step l.config.requests_per_second from now to h (InOrder-le now to es order),
    )

-- Whatever the requests of all keys and the ticks of the clean-up are, in any order in time, a new
-- limiter grants to one key at most the burst plus the rate times the time that passes, when five
-- minutes at the rate fill the burst.
pub granted-le :
    (cfg : Config) (key : Bytes) (es : List LimiterEvent) (from to : ℕ)
    → (new_limiter cfg).config.burst * token
      ≤ five_minutes * (new_limiter cfg).config.requests_per_second
    → InOrder from to es
    → granted key es (new_limiter cfg) * token
      ≤ (new_limiter cfg).config.burst * token
        + (to - from) * (new_limiter cfg).config.requests_per_second
granted-le cfg key es from to enough order = omega (
  arith,
  granted-le_credit key es (new_limiter cfg) from to (unfold new_limiter in tt) enough order,
  credit_of-le (new_limiter cfg).config (lookup key (new_limiter cfg).buckets) from,
)
