-- ===== src/Ratelimit/Waiting.antt =====
-- Keys that wait (ratelimit.go), while other keys make requests and the clean-up ticks.
use gql_firewall.Base.{
  ◌+◌, ◌-◌, ◌*◌, ◌≤◌, ◌≡◌, ◌∙◌, ℕ, Bytes, true, false, List, [], ◌∷◌, Option, none, some,
  HasKeysOnce, lookup, bytes_equal, bytes_equal_iff, arith, if◌then◌else◌, refl, subst, sym, ltb,
}
use native.Mathlib.Nat.{mul-le-mul_right}
use gql_firewall.Ratelimit.{
  token, five_minutes, Config, Bucket, Limiter, new_limiter, allow, sweep, take_token, refill,
  bucket_of,
}
use gql_firewall.Ratelimit.Credit.{
  credit_of, credit, allow_iff, allow-lookup, lookup-sweep_buckets, sweep_buckets-HasKeysOnce,
}
use gql_firewall.Ratelimit.Bounds.{LimiterEvent, request, tick, step, allow-HasKeysOnce}

-- The limiter after a sequence of requests and ticks, the first of which comes first.
unfoldable pub after : List LimiterEvent → Limiter → Limiter
after [] l = l
after (e ∷ es) l = after es (step e l)

-- No request of the sequence is the key's own.
abbrev pub IsWithoutKey : Bytes → List LimiterEvent → Type 0
IsWithoutKey key [] = Unit
IsWithoutKey key (request k created now ∷ es) = (bytes_equal k key ≡ false) × IsWithoutKey key es
IsWithoutKey key (tick now ∷ es) = IsWithoutKey key es

-- The key, if it has a bucket, has not been refilled since time `since`.
record Idles (cfg : Config) (key : Bytes) (since : ℕ) (l : Limiter) : Type 0 where
  config : l.config ≡ cfg
  once : HasKeysOnce l.buckets
  bucket : (b : Bucket) → lookup key l.buckets ≡ some b → b.last_tick ≤ since

-- What every limiter has that was made by `New`.
record IsOrderly (cfg : Config) (l : Limiter) : Type 0 where
  config : l.config ≡ cfg
  once : HasKeysOnce l.buckets

step-IsOrderly :
    (cfg : Config) (e : LimiterEvent) (l : Limiter) → IsOrderly cfg l → IsOrderly cfg (step e l)
unfolding allow sweep
step-IsOrderly cfg (request key created now) l h = record {
  config = h.config;
  once = allow-HasKeysOnce l key created now h.once;
}
step-IsOrderly cfg (tick now) l h = record {
  config = h.config;
  once = sweep_buckets-HasKeysOnce now l.buckets h.once;
}

after-IsOrderly :
    (cfg : Config) (es : List LimiterEvent) (l : Limiter)
    → IsOrderly cfg l
    → IsOrderly cfg (after es l)
unfolding after
after-IsOrderly cfg [] l h = h
after-IsOrderly cfg (e ∷ es) l h = after-IsOrderly cfg es (step e l) (step-IsOrderly cfg e l h)

take_token-last_tick : (b : Bucket) → (take_token b).1.last_tick ≡ b.last_tick
unfolding take_token
take_token-last_tick b = ground arith

-- A request, granted or not, leaves the key's bucket refilled at its time.
allow-Idles :
    (cfg : Config) (key : Bytes) (created now : ℕ) (l : Limiter)
    → IsOrderly cfg l
    → Idles cfg key now (allow l key created now).1
allow-Idles cfg key created now l h = record {
  config = (step-IsOrderly cfg (request key created now) l h).config;
  once = (step-IsOrderly cfg (request key created now) l h).once;
  bucket = λ b at.
      let full = refill l.config now (bucket_of l.config created (lookup key l.buckets)) in
      let spent = take_token full in
      let self : bytes_equal key key ≡ true = (bytes_equal_iff key key).1 refl in
      let stored : lookup key (allow l key created now).1.buckets ≡ some spent.1 =
        rw self at (allow-lookup l key key created now) in
      let found : some spent.1 ≡ some b = sym stored ∙ at in
      let same : spent.1 ≡ b = cc in
      let tick : spent.1.last_tick ≡ now = take_token-last_tick full ∙ unfold refill in refl in
      subst (λ x. x.last_tick ≤ now) same (omega (arith, tick));
}

other-Idles :
    (cfg : Config) (key k : Bytes) (since created now : ℕ) (l : Limiter)
    → bytes_equal k key ≡ false
    → Idles cfg key since l
    → Idles cfg key since (allow l k created now).1
unfolding allow
other-Idles cfg key k since created now l other h = record {
  config = h.config;
  once = allow-HasKeysOnce l k created now h.once;
  bucket = λ b at. h.bucket b (sym (rw other at (allow-lookup l k key created now)) ∙ at);
}

was_there :
    (now : ℕ) (o : Option Bucket) (b : Bucket)
    → elim o [
      | none ↦ none
      | some b' ↦ if ltb (b'.last_tick + five_minutes) now then none else some b'
    ]
      ≡ some b
    → o ≡ some b
was_there now none b at = absurd (ground arith)
was_there now (some b') b at = ground arith

sweep-Idles :
    (cfg : Config) (key : Bytes) (since now : ℕ) (l : Limiter)
    → Idles cfg key since l
    → Idles cfg key since (sweep now l)
unfolding sweep
sweep-Idles cfg key since now l h = record {
  config = h.config;
  once = sweep_buckets-HasKeysOnce now l.buckets h.once;
  bucket = λ b at. h.bucket b (
      was_there now (lookup key l.buckets) b
        (sym (lookup-sweep_buckets now key l.buckets h.once) ∙ at));
}

after-Idles :
    (cfg : Config) (key : Bytes) (since : ℕ) (es : List LimiterEvent) (l : Limiter)
    → IsWithoutKey key es
    → Idles cfg key since l
    → Idles cfg key since (after es l)
unfolding after
after-Idles cfg key since [] l without h = h
after-Idles cfg key since (request k created now ∷ es) l (other, without) h =
    after-Idles cfg key since es (allow l k created now).1 without
      (other-Idles cfg key k since created now l other h)
after-Idles cfg key since (tick now ∷ es) l without h =
    after-Idles cfg key since es (sweep now l) without (sweep-Idles cfg key since now l h)

credit_of-wait :
    (cfg : Config) (o : Option Bucket) (since now : ℕ)
    → ((b : Bucket) → o ≡ some b → b.last_tick ≤ since)
    → 1 ≤ cfg.burst
    → token ≤ (now - since) * cfg.requests_per_second
    → token ≤ credit_of cfg o now
unfolding credit_of refill bucket_of
credit_of-wait cfg none since now idle some_burst waited = ground arith
credit_of-wait cfg (some b) since now idle some_burst waited =
    let earlier : b.last_tick ≤ since = idle b refl in
    let longer : now - since ≤ now - b.last_tick = omega arith in
    let more = mul-le-mul_right cfg.requests_per_second longer in ground arith

-- A wait in which the rate makes one token gives the key a whole token.
Idles-credit :
    (cfg : Config) (key : Bytes) (since now : ℕ) (l : Limiter)
    → Idles cfg key since l
    → 1 ≤ cfg.burst
    → token ≤ (now - since) * cfg.requests_per_second
    → token ≤ credit l key now
Idles-credit cfg key since now l h some_burst waited =
    subst (λ c. token ≤ credit_of c (lookup key l.buckets) now) (sym h.config)
      (credit_of-wait cfg (lookup key l.buckets) since now h.bucket some_burst waited)

new_limiter-burst : (cfg : Config) → 1 ≤ (new_limiter cfg).config.burst
unfolding new_limiter
new_limiter-burst cfg = ground arith

-- After any requests and ticks on a new limiter, a key that makes a request, granted or not, and then
-- none for as long as the rate takes to make one token, has its next request granted, whatever the
-- requests of the other keys and the ticks of the clean-up are in between.
pub allow-after :
    (cfg : Config) (key : Bytes) (before between : List LimiterEvent)
    (created now created' later : ℕ)
    → IsWithoutKey key between
    → token ≤ (later - now) * (new_limiter cfg).config.requests_per_second
    → (allow
        (after between (allow (after before (new_limiter cfg)) key created now).1)
        key
        created'
        later).0
      ≡ true
allow-after cfg key before between created now created' later without waited =
    let l = after before (new_limiter cfg) in
    let orderly =
      after-IsOrderly (new_limiter cfg).config before (new_limiter cfg)
        (unfold new_limiter in record { config = refl; once = tt }) in
    let l' = after between (allow l key created now).1 in
    let idles =
      after-Idles (new_limiter cfg).config key now between (allow l key created now).1 without
        (allow-Idles (new_limiter cfg).config key created now l orderly) in
    (allow_iff l' key created' later).0.1
      (Idles-credit (new_limiter cfg).config key now later l' idles (new_limiter-burst cfg) waited)
