-- ===== src/Tests/Ratelimit.antt =====
-- The limiter at two requests per second with a burst of two: one key asks three times at once, another
-- once, and the clean-up ticks in between.
use gql_firewall.Base.{
  ◌++◌, ◌≢◌, All, none, ◌≡◌, ◌↔◌, ◌≤◌, ◌-◌, ◌+◌, ◌*◌, Bytes, true, false, List, [], ◌∷◌, lookup,
  insert, bytes_equal, codes, refl, arith,
}
use gql_firewall.Ratelimit.{
  token, Config, Limiter, new_limiter, bucket_of, refill, take_token, allow, sweep_buckets, sweep,
}
use gql_firewall.Ratelimit.Credit
use gql_firewall.Ratelimit.Credit.{credit_of, credit, cost}
use gql_firewall.Ratelimit.Bounds
use gql_firewall.Ratelimit.Bounds.{LimiterEvent, request, tick, granted}
use gql_firewall.Ratelimit.Lifecycle
use gql_firewall.Ratelimit.Lifecycle.{
  Running, ended, new_running, stop, ask, clean, end_cleaner, call_stop, Run, done, event, silent,
  IsRequest,
}
use gql_firewall.Ratelimit.Waiting
use gql_firewall.Ratelimit.Waiting.{after}
use gql_firewall.Ratelimit.Isolation
use gql_firewall.Ratelimit.Isolation.{own_events}

abbrev two_per_second : Config
two_per_second = record { requests_per_second = 2000000; burst = 2 }

abbrev acme : Bytes
acme = codes "acme"

abbrev traffic : List LimiterEvent
traffic =
    request acme 10 11
    ∷ request acme 12 13
    ∷ request (codes "other") 14 15
    ∷ tick 16
    ∷ request acme 17 18
    ∷ request acme 1000000017 1000000018
    ∷ []

limiter : Unit {0}
unfolding granted new_limiter allow sweep sweep_buckets bucket_of refill take_token lookup insert
    bytes_equal
limiter = tt

two_then_one_later : granted acme traffic (new_limiter two_per_second) ≡ 3
unfolding limiter
two_then_one_later = refl

abbrev acme_limiter : Limiter
acme_limiter = record {
  buckets = (acme, record { tokens = 5000000000000000; last_tick = 0 }) ∷ [];
  config = record { requests_per_second = 100000000; burst = 200 };
}

granted-le_example :
    granted acme traffic (new_limiter two_per_second) * token
    ≤ 2 * token + (1000000018 - 10) * 2000000
unfolding new_limiter
granted-le_example = Bounds.granted-le two_per_second acme traffic 10 1000000018 (omega arith) (
  omega arith,
  (omega arith, (omega arith, (omega arith, (omega arith, (omega arith, omega arith))))),
)

granted-own_events_example :
    granted acme traffic (new_limiter two_per_second)
    ≡ granted acme (own_events acme traffic) (new_limiter two_per_second)
granted-own_events_example = Isolation.granted-own_events two_per_second acme traffic

allow_iff_example :
    ((allow acme_limiter acme 7 8).0 ≡ true ↔ token ≤ credit acme_limiter acme 8)
    × (credit acme_limiter acme 8
        ≡ credit (allow acme_limiter acme 7 8).1 acme 8 + cost (allow acme_limiter acme 7 8).0)
    × ((other : Bytes)
        → bytes_equal acme other ≡ false
        → lookup other (allow acme_limiter acme 7 8).1.buckets ≡ lookup other acme_limiter.buckets)
allow_iff_example = Credit.allow_iff acme_limiter acme 7 8

credit-sweep_example :
    credit (sweep 300000000009 acme_limiter) acme 300000000010
    ≡ credit acme_limiter acme 300000000010
unfolding lookup
credit-sweep_example =
    Credit.credit-sweep acme_limiter acme 300000000009 300000000010 (refl, tt) (omega arith)
      (omega arith)

-- The bucket of two is empty after three requests; half a second later there is a token again.
allow-after_example :
    (allow
      (after
        (request (codes "other") 100 101 ∷ tick 400 ∷ [])
        (allow
          (after (request acme 10 11 ∷ request acme 12 13 ∷ []) (new_limiter two_per_second))
          acme
          14
          15).1)
      acme
      500000014
      500000015).0
    ≡ true
unfolding bytes_equal new_limiter
allow-after_example =
    Waiting.allow-after two_per_second acme (request acme 10 11 ∷ request acme 12 13 ∷ [])
      (request (codes "other") 100 101 ∷ tick 400 ∷ []) 14 15 500000014 500000015 (refl, tt)
      (omega arith)

-- A request, a tick, `Stop`, the end of the goroutine, and one request after it.
abbrev before_stop : List LimiterEvent
before_stop = request acme 10 11 ∷ tick 16 ∷ []

abbrev after_stop : List LimiterEvent
after_stop = request (codes "other") 20 21 ∷ []

abbrev stopped : Running
stopped = record {
  limiter = after before_stop (new_limiter two_per_second);
  cleaner = ended;
  stop_closed = true;
}

abbrev asked_again : Running
asked_again = record stopped {
  limiter = after (before_stop ++ after_stop) (new_limiter two_per_second);
}

Run-Ended_example :
    (asked_again.limiter ≡ after (before_stop ++ after_stop) (new_limiter two_per_second))
    × (stop asked_again ≡ none)
    × All IsRequest after_stop
    × (lookup acme asked_again.limiter.buckets ≢ none)
unfolding limiter after new_running stop
Run-Ended_example =
    Lifecycle.Run-Ended two_per_second before_stop after_stop stopped asked_again acme
      (event (ask acme 10 11)
        (event (clean 16 refl) (silent (call_stop _ refl) (silent (end_cleaner refl refl) done))))
      refl (event (ask (codes "other") 20 21) done) (λ e. ground arith)
