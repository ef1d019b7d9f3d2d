-- ===== src/Ratelimit/Lifecycle.antt =====
-- The limiter with its clean-up goroutine (ratelimit.go): `New` starts it, and it ends after `Stop` has
-- closed the channel on which it waits. `Allow` and one tick hold the lock from end to end, so a run is a
-- sequence of them.
use gql_firewall.Base.{
  ◌≡◌, ◌≢◌, ◌∙◌, ℕ, Bytes, Bool, true, false, List, [], ◌∷◌, ◌++◌, Option, none, some, lookup, All,
  arith, if◌then◌else◌, refl, sym, ap, subst, inl, inr, Bool-cases,
}
use gql_firewall.Ratelimit.{Config, Limiter, new_limiter, allow, sweep}
use gql_firewall.Ratelimit.Credit.{allow-lookup}
use gql_firewall.Ratelimit.Bounds.{LimiterEvent, request, tick, step}
use gql_firewall.Ratelimit.Waiting.{after}

-- The goroutine waits in its `select`, or has returned.
pub data Cleaner : Type 0 where
  waiting : Cleaner
  ended : Cleaner

pub record Running : Type 0 where
  pub limiter : Limiter
  pub cleaner : Cleaner
  pub stop_closed : Bool

-- `New`
unfoldable pub new_running : Config → Running
new_running cfg = record { limiter = new_limiter cfg; cleaner = waiting; stop_closed = false }

-- `Stop`: closing a channel that is closed panics, which is `none`.
unfoldable pub stop : Running → Option Running
stop r = if r.stop_closed then none else some (record r { stop_closed = true })

-- What happens next, with the event of the limiter that it is, if it is one. Where the ticker and the
-- closed channel are both ready, `select` takes either.
pub data Turn (r : Running) : Option LimiterEvent → Running → Type 0 where
  ask :
      (key : Bytes) (created now : ℕ)
      → Turn r
          (some (request key created now))
          (record r { limiter = (allow r.limiter key created now).1 })
  clean :
      (now : ℕ)
      → r.cleaner ≡ waiting
      → Turn r (some (tick now)) (record r { limiter = sweep now r.limiter })
  end_cleaner :
      r.cleaner ≡ waiting → r.stop_closed ≡ true → Turn r none (record r { cleaner = ended })
  call_stop : (s : Running) → stop r ≡ some s → Turn r none s

-- A run, with the events of the limiter in it.
pub data Run : Running → List LimiterEvent → Running → Type 0 where
  done : {r : Running} → Run r [] r
  event :
      {e : LimiterEvent} {es : List LimiterEvent} {r s t : Running}
      → Turn r (some e) s
      → Run s es t
      → Run r (e ∷ es) t
  silent : {es : List LimiterEvent} {r s t : Running} → Turn r none s → Run s es t → Run r es t

-- `Stop` changes nothing but the channel.
stop-some :
    (r s : Running)
    → stop r ≡ some s
    → (r.stop_closed ≡ false) × (s ≡ record r { stop_closed = true })
unfolding stop
stop-some r s h = elim (Bool-cases r.stop_closed) [
  | inl closed ↦ absurd (ground arith)
  | inr still ↦
      let made : some (record r { stop_closed = true }) ≡ some s = rw (still, stop) at h in
      (still, cc)
]

-- The goroutine has ended only after `Stop`.
abbrev IsStopped : Running → Type 0
IsStopped r = r.cleaner ≡ ended → r.stop_closed ≡ true

Turn-IsStopped : {o : Option LimiterEvent} {r s : Running} → Turn r o s → IsStopped r → IsStopped s
Turn-IsStopped (ask key created now) h = h
Turn-IsStopped (clean now still) h = h
Turn-IsStopped (end_cleaner still closed) h = λ e. closed
Turn-IsStopped {r = r} (call_stop s called) h =
    λ e. ap (λ x. x.stop_closed) (stop-some r s called).1

Run-IsStopped : {es : List LimiterEvent} {r s : Running} → Run r es s → IsStopped r → IsStopped s
Run-IsStopped done h = h
Run-IsStopped (event turn run) h = Run-IsStopped run (Turn-IsStopped turn h)
Run-IsStopped (silent turn run) h = Run-IsStopped run (Turn-IsStopped turn h)

Turn-limiter : {r s : Running} → Turn r none s → s.limiter ≡ r.limiter
Turn-limiter (end_cleaner still closed) = refl
Turn-limiter {r = r} (call_stop s called) = ap (λ x. x.limiter) (stop-some r s called).1

Run-after : {es : List LimiterEvent} {r s : Running} → Run r es s → s.limiter ≡ after es r.limiter
unfolding after
Run-after done = refl
Run-after (event (ask key created now) run) = Run-after run
Run-after (event (clean now still) run) = Run-after run
Run-after {es = es} (silent turn run) = Run-after run ∙ ap (after es) (Turn-limiter turn)

-- Once it has ended it stays so, and no tick comes.
abbrev pub IsRequest : LimiterEvent → Type 0
IsRequest (request key created now) = Unit
IsRequest (tick now) = ⊥

Turn-ended :
    {o : Option LimiterEvent} {r s : Running} → Turn r o s → r.cleaner ≡ ended → s.cleaner ≡ ended
Turn-ended (ask key created now) h = h
Turn-ended (clean now still) h = h
Turn-ended (end_cleaner still closed) h = refl
Turn-ended {r = r} (call_stop s called) h = ap (λ x. x.cleaner) (stop-some r s called).1 ∙ h

Run-requests :
    {es : List LimiterEvent} {r s : Running} → Run r es s → r.cleaner ≡ ended → All IsRequest es
Run-requests done h = tt
Run-requests (event (ask key created now) run) h = (tt, Run-requests run h)
Run-requests (event (clean now still) run) h = absurd (ground arith)
Run-requests (silent turn run) h = Run-requests run (Turn-ended turn h)

request-keeps :
    (l : Limiter) (key other : Bytes) (created now : ℕ)
    → lookup other l.buckets ≢ none
    → lookup other (allow l key created now).1.buckets ≢ none
request-keeps l key other created now h = ground (arith, allow-lookup l key other created now)

Run-keeps :
    (key : Bytes) {es : List LimiterEvent} {r s : Running}
    → Run r es s
    → r.cleaner ≡ ended
    → lookup key r.limiter.buckets ≢ none
    → lookup key s.limiter.buckets ≢ none
Run-keeps key done h kept = kept
Run-keeps key {r = r} (event (ask k created now) run) h kept =
    Run-keeps key run h (request-keeps r.limiter k key created now kept)
Run-keeps key (event (clean now still) run) h kept = absurd (ground arith)
Run-keeps key (silent turn run) h kept =
    Run-keeps key run (Turn-ended turn h)
      (subst (λ l. lookup key l.buckets ≢ none) (sym (Turn-limiter turn)) kept)

Turn-closed :
    {o : Option LimiterEvent} {r s : Running}
    → Turn r o s
    → r.stop_closed ≡ true
    → s.stop_closed ≡ true
Turn-closed (ask key created now) h = h
Turn-closed (clean now still) h = h
Turn-closed (end_cleaner still closed) h = h
Turn-closed {r = r} (call_stop s called) h = ap (λ x. x.stop_closed) (stop-some r s called).1

Run-closed :
    {es : List LimiterEvent} {r s : Running}
    → Run r es s
    → r.stop_closed ≡ true
    → s.stop_closed ≡ true
Run-closed done h = h
Run-closed (event turn run) h = Run-closed run (Turn-closed turn h)
Run-closed (silent turn run) h = Run-closed run (Turn-closed turn h)

after-append :
    (es es' : List LimiterEvent) (l : Limiter) → after (es ++ es') l ≡ after es' (after es l)
unfolding after
after-append [] es' l = refl
after-append (e ∷ es) es' l = after-append es es' (step e l)

stop-closed : (r : Running) → r.stop_closed ≡ true → stop r ≡ none
unfolding stop
stop-closed r closed = ground arith

-- However calls of Allow, ticks of the clean-up and calls of Stop follow one another on a limiter that New
-- made, once the clean-up's goroutine has ended: Stop had been called and would panic from then on, the
-- buckets are those of the Allow calls and the ticks so far, no tick comes any more, and every key that
-- has a bucket keeps one.
pub Run-Ended :
    (cfg : Config) (es es' : List LimiterEvent) (r s : Running) (key : Bytes)
    → Run (new_running cfg) es r
    → r.cleaner ≡ ended
    → Run r es' s
    → lookup key r.limiter.buckets ≢ none
    → (s.limiter ≡ after (es ++ es') (new_limiter cfg))
      × (stop s ≡ none)
      × All IsRequest es'
      × (lookup key s.limiter.buckets ≢ none)
unfolding new_running
Run-Ended cfg es es' r s key before over later kept =
    let closed : r.stop_closed ≡ true = Run-IsStopped before (λ e. absurd (ground arith)) over in
    (
      Run-after later
          ∙ ap (after es') (Run-after before)
          ∙ sym (after-append es es' (new_limiter cfg)),
      stop-closed s (Run-closed later closed),
      Run-requests later over,
      Run-keeps key later over kept,
    )
