-- ===== src/Ratelimit/Credit.antt =====
-- What a key may spend (ratelimit.go): the tokens of its bucket after the refill at a given time, and
-- how each operation changes them.
use gql_firewall.Base.{
  ◌+◌, ◌-◌, ◌*◌, ◌≤◌, ◌≡◌, ◌↔◌, ◌<◌, ◌∙◌, sym, ap, subst, inl, inr, Option-cases, Bool-cases, ℕ,
  Bytes, Bool, true, false, [], ◌∷◌, Option, none, some, Map, HasKeysOnce, lookup, lookup-insert,
  bytes_equal, bytes_equal_iff, ltb, arith, if◌then◌else◌, refl,
}
use gql_firewall.Ratelimit.{
  token, five_minutes, Config, Bucket, Limiter, bucket_of, refill, take_token, allow, sweep_buckets,
  sweep,
}
use native.Mathlib.Nat.{mul-le-mul_right}

-- The tokens for a key at time `now`, in small units.
unfoldable pub credit_of : Config → Option Bucket → ℕ → ℕ
credit_of cfg found now = (refill cfg now (bucket_of cfg now found)).tokens

abbrev pub credit : Limiter → Bytes → ℕ → ℕ
credit l key now = credit_of l.config (lookup key l.buckets) now

abbrev pub cost : Bool → ℕ
cost allowed = if allowed then token else 0

pub credit_of-le :
    (cfg : Config) (found : Option Bucket) (now : ℕ) → credit_of cfg found now ≤ cfg.burst * token
unfolding credit_of refill bucket_of
credit_of-le cfg found now = ground arith

elapsed-le :
    (last now later rate : ℕ) → (later - last) * rate ≤ (now - last) * rate + (later - now) * rate
elapsed-le last now later rate =
    let h : later - last ≤ now - last + (later - now) = omega arith in
    omega (arith, mul-le-mul_right rate h)

-- Over time the tokens grow by the rate at most.
pub credit_of-later :
    (cfg : Config) (found : Option Bucket) (now later : ℕ)
    → credit_of cfg found later ≤ credit_of cfg found now + (later - now) * cfg.requests_per_second
unfolding credit_of refill bucket_of
credit_of-later cfg none now later = ground arith
credit_of-later cfg (some b) now later =
    ground (arith, elapsed-le b.last_tick now later cfg.requests_per_second)

refill_new :
    (cfg : Config) (found : Option Bucket) (created now : ℕ)
    → (refill cfg now (bucket_of cfg created found)).tokens ≡ credit_of cfg found now
unfolding credit_of refill bucket_of
refill_new cfg none created now = ground arith
refill_new cfg (some b) created now = refl

take_token_iff :
    (b : Bucket)
    → ((take_token b).0 ≡ true ↔ token ≤ b.tokens)
      × (b.tokens ≡ (take_token b).1.tokens + cost (take_token b).0)
      × ((take_token b).1.last_tick ≡ b.last_tick)
unfolding take_token
take_token_iff b = ground arith

credit_of_spent :
    (cfg : Config) (b : Bucket)
    → b.tokens ≤ cfg.burst * token
    → credit_of cfg (some (take_token b).1) b.last_tick ≡ (take_token b).1.tokens
unfolding credit_of refill bucket_of take_token
credit_of_spent cfg b h = ground arith

refill-le : (cfg : Config) (now : ℕ) (b : Bucket) → (refill cfg now b).tokens ≤ cfg.burst * token
unfolding refill
refill-le cfg now b = ground arith

refill-last_tick : (cfg : Config) (now : ℕ) (b : Bucket) → (refill cfg now b).last_tick ≡ now
unfolding refill
refill-last_tick cfg now b = refl

pub allow-lookup :
    (l : Limiter) (key other : Bytes) (created now : ℕ)
    → lookup other (allow l key created now).1.buckets ≡ (
        if bytes_equal key other
        then some
            (take_token (refill l.config now (bucket_of l.config created (lookup key l.buckets)))).1
        else lookup other l.buckets)
unfolding allow
allow-lookup l key other created now = lookup-insert key other _ l.buckets

-- `Allow` grants a request exactly when the key has a whole token after the refill, and takes that
-- token, or nothing when it refuses; the bucket of every other key stays as it is.
pub allow_iff :
    (l : Limiter) (key : Bytes) (created now : ℕ)
    → ((allow l key created now).0 ≡ true ↔ token ≤ credit l key now)
      × (credit l key now
          ≡ credit (allow l key created now).1 key now + cost (allow l key created now).0)
      × ((other : Bytes)
          → bytes_equal key other ≡ false
          → lookup other (allow l key created now).1.buckets ≡ lookup other l.buckets)
unfolding allow
allow_iff l key created now =
    let found = lookup key l.buckets in
    let b = refill l.config now (bucket_of l.config created found) in
    let (granted, spent, tick) = take_token_iff b in
    let full : b.tokens ≡ credit_of l.config found now = refill_new l.config found created now in
    let after : lookup key (allow l key created now).1.buckets ≡ some (take_token b).1 =
      ground (arith, allow-lookup l key key created now, bytes_equal_iff key key) in
    let kept : credit (allow l key created now).1 key now
        ≡ credit_of l.config (some (take_token b).1) now =
      ap (λ f. credit_of l.config f now) after in
    let left : credit_of l.config (some (take_token b).1) now ≡ (take_token b).1.tokens =
      subst (λ t. credit_of l.config (some (take_token b).1) t ≡ (take_token b).1.tokens)
        (refill-last_tick l.config now (bucket_of l.config created found))
        (credit_of_spent l.config b (refill-le l.config now _)) in
    (
      (
        λ e. subst (λ n. token ≤ n) full (granted.0 e),
        λ h. granted.1 (subst (λ n. token ≤ n) (sym full) h),
      ),
      sym full ∙ spent ∙ ap (λ n. n + cost (take_token b).0) (sym left ∙ sym kept),
      λ other h. rw h at (allow-lookup l key other created now),
    )

-- At a tick of the clean-up.
pub lookup-sweep_buckets :
    (now : ℕ) (key : Bytes) (m : Map Bucket)
    → HasKeysOnce m
    → lookup key (sweep_buckets now m) ≡ (elim (lookup key m) [
      | none ↦ none
      | some b ↦ if ltb (b.last_tick + five_minutes) now then none else some b
    ])
unfolding sweep_buckets lookup
lookup-sweep_buckets now key [] h = refl
lookup-sweep_buckets now key ((k, b) ∷ m) h =
    ground (arith, bytes_equal_iff k key, lookup-sweep_buckets now key m)

pub sweep_buckets-HasKeysOnce :
    (now : ℕ) (m : Map Bucket) → HasKeysOnce m → HasKeysOnce (sweep_buckets now m)
unfolding sweep_buckets
sweep_buckets-HasKeysOnce now [] h = tt
sweep_buckets-HasKeysOnce now ((k, b) ∷ m) h =
    ground (arith, lookup-sweep_buckets now k m, sweep_buckets-HasKeysOnce now m)

stale_full :
    (cfg : Config) (b : Bucket) (now later : ℕ)
    → cfg.burst * token ≤ five_minutes * cfg.requests_per_second
    → b.last_tick + five_minutes < now
    → now ≤ later
    → credit_of cfg (some b) later ≡ cfg.burst * token
unfolding credit_of refill bucket_of
stale_full cfg b now later enough old order =
    let h : five_minutes ≤ later - b.last_tick = omega arith in
    ground (arith, mul-le-mul_right cfg.requests_per_second h)

pub credit_of-none : (cfg : Config) (now : ℕ) → credit_of cfg none now ≡ cfg.burst * token
unfolding credit_of refill bucket_of
credit_of-none cfg now = ground arith

-- When five minutes refill a bucket to the burst, the clean-up changes no key's tokens at its time or
-- later.
pub credit-sweep :
    (l : Limiter) (key : Bytes) (now later : ℕ)
    → HasKeysOnce l.buckets
    → l.config.burst * token ≤ five_minutes * l.config.requests_per_second
    → now ≤ later
    → credit (sweep now l) key later ≡ credit l key later
unfolding sweep
credit-sweep l key now later once enough order = elim (Option-cases (lookup key l.buckets)) [
  | inl missing ↦
      let h = rw missing at (lookup-sweep_buckets now key l.buckets once) in rw h (rw missing)
  | inr (b, found) ↦ elim (Bool-cases (ltb (b.last_tick + five_minutes) now)) [
    | inr young ↦
        let h = rw young at (rw found at (lookup-sweep_buckets now key l.buckets once)) in
        rw h (rw found)
    | inl stale ↦
        let h = rw stale at (rw found at (lookup-sweep_buckets now key l.buckets once)) in
        rw h (
          rw found (
            credit_of-none l.config later
            ∙ sym (stale_full l.config b now later enough (ground arith) order)))
  ]
]
