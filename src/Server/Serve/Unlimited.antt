-- ===== src/Server/Serve/Unlimited.antt =====
-- The rate limiter of a started server (main.go) and requests that all have keys of their own. A client
-- chooses its key by the header X-API-Key or X-Forwarded-For.
use gql_firewall.Base.{
  List, [], ◌∷◌, Option, none, some, lookup, bytes_equal, ◌≡◌, refl, sym, ap, subst, ◌∙◌, inl, inr,
  Option-cases, All, arith, false,
}
use gql_firewall.Metrics.{Events}
use gql_firewall.Proxy.Http.{Response, Outcome}
use gql_firewall.Proxy.Handler.{World}
use gql_firewall.Ratelimit.{Limiter, new_limiter}
use gql_firewall.Server.Middleware.{rate_limit_key}
use gql_firewall.Server.Pipeline.{Backend}
use gql_firewall.Server.Serve.{Live, Arrival, serve_main, serve_all}
use gql_firewall.Server.Startup.Laws.Wiring.{start-IsWired}
use gql_firewall.Server.Startup.{Environment, Flags, Server, ready, limiter_of, start}
use gql_firewall.Server.Serve.Fresh.{IsFull, live_of, Agrees, serve_main-Agrees, serve_all-free}

-- The key of `a` is none of the others'.
abbrev HasOwnKey : Arrival → List Arrival → Type 0
HasOwnKey a = All (λ b. bytes_equal (rate_limit_key b.request) (rate_limit_key a.request) ≡ false)

-- No two requests have the same key.
abbrev pub HaveOwnKeys : List Arrival → Type 0
HaveOwnKeys [] = Unit
HaveOwnKeys (a ∷ past) = HasOwnKey a past × HaveOwnKeys past

module _ (metrics_page : Events → Response) (s : Server) where
  -- After the requests the limiter `first` is `l`, all was as with no limiter, and every other key has no
  -- bucket.
  record Untouched (first l : Limiter) (past : List Arrival) (world : World Backend) : Type 0 where
    as_free :
        serve_all metrics_page s past (live_of (some first) world)
        ≡ live_of (some l) (serve_all metrics_page s past (live_of none world)).world
    full : IsFull l
    missing : (a : Arrival) → HasOwnKey a past → lookup (rate_limit_key a.request) l.buckets ≡ none

  -- The next request, if it has a key of its own.
  next-Agrees :
      (a : Arrival) (past : List Arrival) (first l : Limiter) (world : World Backend)
      → Untouched first l past world
      → HasOwnKey a past
      → Agrees metrics_page s l
          (rate_limit_key a.request)
          (serve_main metrics_page s a (serve_all metrics_page s past (live_of (some first) world)))
          (serve_main metrics_page s a (serve_all metrics_page s past (live_of none world)))
  next-Agrees a past first l world u mine =
      let w = (serve_all metrics_page s past (live_of none world)).world in
      let (l', same, passes) = serve_main-Agrees metrics_page s a l w u.full (u.missing a mine) in
      (
        l',
        ap (serve_main metrics_page s a) u.as_free
            ∙ same
            ∙ ap
                (λ (live : Live). (
                  (serve_main metrics_page s a live).0,
                  live_of (some l') (serve_main metrics_page s a live).1.world,
                ))
                (sym (serve_all-free metrics_page s past world)),
        passes,
      )

  serve_all-Untouched :
      (past : List Arrival) (first : Limiter) (world : World Backend)
      → IsFull first
      → first.buckets ≡ []
      → HaveOwnKeys past
      → (l : Limiter) × Untouched first l past world
  unfolding serve_all lookup
  serve_all-Untouched [] first world full empty own =
      (first, record { as_free = refl; full = full; missing = λ a h. rw empty refl })
  serve_all-Untouched (a ∷ past) first world full empty (mine, own) =
      let (l, u) = serve_all-Untouched past first world full empty own in
      let (l', same, passes) = next-Agrees a past first l world u mine in
      (
        l',
        record {
          as_free = ap (λ (run : Outcome × Live). run.1) same;
          full = passes.full;
          missing =
              λ b (other, rest). passes.others (rate_limit_key b.request) other ∙ u.missing b rest;
        },
      )

  -- The answer and the world after it are as with no limiter.
  abbrev AsFree : Arrival → List Arrival → World Backend → Option Limiter → Type 0
  AsFree a past world limiter =
      let run =
        serve_main metrics_page s a (serve_all metrics_page s past (live_of limiter world)) in
      let plain =
        serve_main metrics_page s a (serve_all metrics_page s past (live_of none world)) in
      (run.0 ≡ plain.0) × (run.1.world ≡ plain.1.world)

  limited-AsFree :
      (a : Arrival) (past : List Arrival) (first : Limiter) (world : World Backend)
      → IsFull first
      → first.buckets ≡ []
      → HaveOwnKeys (a ∷ past)
      → AsFree a past world (some first)
  limited-AsFree a past first world full empty (mine, own) =
      let (l, u) = serve_all-Untouched past first world full empty own in
      let (l', same, passes) = next-Agrees a past first l world u mine in
      (ap (λ (run : Outcome × Live). run.0) same, ap (λ (run : Outcome × Live). run.1.world) same)

-- A started server with a limit, from its start on.
limiter_of-IsFull : (f : Flags) (l : Limiter) → limiter_of f ≡ some l → IsFull l × (l.buckets ≡ [])
unfolding limiter_of new_limiter
limiter_of-IsFull f l h = ground arith

-- If no two requests have the same key, the rate limit of a started server does nothing: each of them is
-- answered as by the server with no limiter, and leaves the same state and metrics, at whatever rate they
-- come. A request with a header X-API-Key has that header as its key.
pub start-unlimited :
    (metrics_page : Events → Response) (env : Environment) (f : Flags) (s : Server)
    (past : List Arrival) (a : Arrival) (world : World Backend)
    → start env f ≡ ready s
    → HaveOwnKeys (a ∷ past)
    → ((serve_main metrics_page s a
          (serve_all metrics_page s past (record { limiter = s.limiter; world = world }))).0
        ≡ (serve_main metrics_page s a
            (serve_all metrics_page s past (record { limiter = none; world = world }))).0)
      × ((serve_main metrics_page s a
            (serve_all metrics_page s past (record { limiter = s.limiter; world = world }))).1.world
          ≡ (serve_main metrics_page s a
              (serve_all metrics_page s past (record { limiter = none; world = world }))).1.world)
start-unlimited metrics_page env f s past a world started (mine, own) =
    let set = (start-IsWired env f s started).limiter in
    elim (Option-cases s.limiter) [
      | inl unset ↦ subst (AsFree metrics_page s a past world) (sym unset) (refl, refl)
      | inr (first, limited) ↦
          let (full, empty) = limiter_of-IsFull f first (sym set ∙ limited) in
          subst (AsFree metrics_page s a past world) (sym limited)
            (limited-AsFree metrics_page s a past first world full empty (mine, own))
    ]
