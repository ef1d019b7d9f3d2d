-- ===== src/Ratelimit/Isolation.antt =====
-- The requests of one key among those of others (ratelimit.go).
use gql_firewall.Base.{
  ◌+◌, ◌≡◌, ◌∙◌, ℕ, Bytes, Bool, false, List, [], ◌∷◌, HasKeysOnce, lookup, bytes_equal,
  bytes_equal_iff, arith, if◌then◌else◌, refl, ap, ap₂, subst, sym, inl, inr, Bool-cases, Option,
}
use native.Mathlib.Nat.{zero-add}
use gql_firewall.Ratelimit.{
  Config, Bucket, Limiter, new_limiter, allow, sweep, take_token, refill, bucket_of,
}
use gql_firewall.Ratelimit.Credit.{allow-lookup, lookup-sweep_buckets, sweep_buckets-HasKeysOnce}
use gql_firewall.Ratelimit.Bounds.{LimiterEvent, request, tick, granted, allow-HasKeysOnce}

-- The events without the requests of other keys.
abbrev pub own_events : Bytes → List LimiterEvent → List LimiterEvent
own_events key [] = []
own_events key (request k created now ∷ es) =
    let rest = own_events key es in if bytes_equal k key then request k created now ∷ rest else rest
own_events key (tick now ∷ es) = tick now ∷ own_events key es

-- Two limiters that look the same to one key.
pub record Alike (key : Bytes) (l l' : Limiter) : Type 0 where
  pub config : l.config ≡ l'.config
  pub bucket : lookup key l.buckets ≡ lookup key l'.buckets
  pub once : HasKeysOnce l.buckets
  pub once' : HasKeysOnce l'.buckets

spent_bucket : Config → Option Bucket → ℕ → ℕ → Bool × Bucket
spent_bucket cfg found created now = take_token (refill cfg now (bucket_of cfg created found))

allow-Alike :
    (key : Bytes) (l l' : Limiter) (created now : ℕ)
    → Alike key l l'
    → ((allow l key created now).0 ≡ (allow l' key created now).0)
      × Alike key (allow l key created now).1 (allow l' key created now).1
unfolding allow spent_bucket
allow-Alike key l l' created now a =
    let same = ap₂ (λ c f. spent_bucket c f created now) a.config a.bucket in
    (
      ap (λ p. p.0) same,
      record {
        config = a.config;
        bucket =
            allow-lookup l key key created now
            ∙ ground (arith, bytes_equal_iff key key, ap (λ p. p.1) same)
            ∙ sym (allow-lookup l' key key created now);
        once = allow-HasKeysOnce l key created now a.once;
        once' = allow-HasKeysOnce l' key created now a.once';
      },
    )

other-Alike :
    (key k : Bytes) (l l' : Limiter) (created now : ℕ)
    → bytes_equal k key ≡ false
    → Alike key l l'
    → Alike key (allow l k created now).1 l'
unfolding allow
other-Alike key k l l' created now other a = record {
  config = a.config;
  bucket = rw other at (allow-lookup l k key created now) ∙ a.bucket;
  once = allow-HasKeysOnce l k created now a.once;
  once' = a.once';
}

sweep-Alike :
    (key : Bytes) (l l' : Limiter) (now : ℕ)
    → Alike key l l'
    → Alike key (sweep now l) (sweep now l')
unfolding sweep
sweep-Alike key l l' now a = record {
  config = a.config;
  bucket =
      lookup-sweep_buckets now key l.buckets a.once
      ∙ rw a.bucket (sym (lookup-sweep_buckets now key l'.buckets a.once'));
  once = sweep_buckets-HasKeysOnce now l.buckets a.once;
  once' = sweep_buckets-HasKeysOnce now l'.buckets a.once';
}

granted_own-Alike :
    (key : Bytes) (created now : ℕ) (es : List LimiterEvent) (l l' : Limiter)
    → Alike key l l'
    → granted key es (allow l key created now).1
      ≡ granted key (own_events key es) (allow l' key created now).1
    → granted key (request key created now ∷ es) l
      ≡ granted key (own_events key (request key created now ∷ es)) l'
unfolding granted
granted_own-Alike key created now es l l' a rest =
    let self = (bytes_equal_iff key key).1 refl in
    rw (self, granted, self)
      (ap₂ (λ b n. (if b then 1 else 0) + n) (allow-Alike key l l' created now a).0 rest)

granted-Alike :
    (key : Bytes) (es : List LimiterEvent) (l l' : Limiter)
    → Alike key l l'
    → granted key es l ≡ granted key (own_events key es) l'
unfolding granted
granted-Alike key [] l l' a = refl
granted-Alike key (request k created now ∷ es) l l' a = elim (Bool-cases (bytes_equal k key)) [
  | inl same ↦
      subst
        (λ j.
          granted key (request j created now ∷ es) l
          ≡ granted key (own_events key (request j created now ∷ es)) l')
        (sym ((bytes_equal_iff k key).0 same))
        (granted_own-Alike key created now es l l' a (
          granted-Alike key es (allow l key created now).1 (allow l' key created now).1
            (allow-Alike key l l' created now a).1))
  | inr other ↦
      let rest =
        granted-Alike key es (allow l k created now).1 l'
          (other-Alike key k l l' created now other a) in
      rw (other, granted) (zero-add _ ∙ rest)
]
granted-Alike key (tick now ∷ es) l l' a =
    granted-Alike key es (sweep now l) (sweep now l') (sweep-Alike key l l' now a)

-- How many of a key's requests are granted is the same when the requests of all other keys are left
-- out of the sequence.
pub granted-own_events :
    (cfg : Config) (key : Bytes) (es : List LimiterEvent)
    → granted key es (new_limiter cfg) ≡ granted key (own_events key es) (new_limiter cfg)
unfolding new_limiter
granted-own_events cfg key es =
    granted-Alike key es (new_limiter cfg) (new_limiter cfg)
      (record { config = refl; bucket = refl; once = tt; once' = tt })
