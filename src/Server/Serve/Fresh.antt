-- ===== src/Server/Serve/Fresh.antt =====
-- A request whose key has no bucket, on the main port (main.go) with a limiter and without one.
use gql_firewall.Base.{
  ◌*◌, ◌≤◌, ◌<◌, ℕ, Bytes, List, [], ◌∷◌, Option, none, some, ◌&&◌, lookup, bytes_equal, codes, ◌≡◌,
  refl, sym, ap, subst, ◌∙◌, inl, inr, Bool-cases, arith, false,
}
use gql_firewall.Metrics.{Events}
use gql_firewall.Proxy.Http.{Response, Outcome}
use gql_firewall.Proxy.Handler.{World}
use gql_firewall.Proxy.Serve.{serve_http}
use gql_firewall.Ratelimit.{Limiter, allow, token}
use gql_firewall.Ratelimit.Credit.{credit, credit_of, credit_of-none, allow-lookup}
use gql_firewall.Server.Middleware.{rate_limit_key}
use gql_firewall.Server.Middleware.Laws.{rate_limit_middleware-cases}
use gql_firewall.Server.Pipeline.{Backend}
use gql_firewall.Server.Serve.{Live, Arrival, serve_limited, serve_main, serve_all}
use gql_firewall.Server.Startup.{Server}

-- A limiter that has a whole token for every key that has no bucket.
abbrev pub IsFull : Limiter → Type 0
IsFull l = 0 < l.config.burst

fresh-granted :
    (l : Limiter) (key : Bytes) (now : ℕ)
    → IsFull l
    → lookup key l.buckets ≡ none
    → token ≤ credit l key now
fresh-granted l key now full missing =
    let all : credit l key now ≡ l.config.burst * token =
      ap (λ f. credit_of l.config f now) missing ∙ credit_of-none l.config now in
    omega arith

-- The limiter after a request that it granted: the keys of others are as before.
pub record Passes (l l' : Limiter) (key : Bytes) : Type 0 where
  pub full : IsFull l'
  pub others :
      (other : Bytes)
      → bytes_equal key other ≡ false
      → lookup other l'.buckets ≡ lookup other l.buckets

pub allow-Passes :
    (l : Limiter) (key : Bytes) (created now : ℕ)
    → IsFull l
    → Passes l (allow l key created now).1 key
unfolding allow
allow-Passes l key created now full = record {
  full = full;
  others = λ other h. rw h at (allow-lookup l key other created now);
}

abbrev pub live_of : Option Limiter → World Backend → Live
live_of limiter world = record { limiter = limiter; world = world }

module _ (metrics_page : Events → Response) (s : Server) where
  -- The server with no limiter.
  abbrev pub free : World Backend → Live
  free world = live_of none world

  -- The same answer and the same world as with no limiter, and a limiter that passed the key.
  abbrev pub Agrees : Limiter → Bytes → Outcome × Live → Outcome × Live → Type 0
  Agrees l key limited plain =
      (l' : Limiter) × (limited ≡ (plain.0, live_of (some l') plain.1.world)) × Passes l l' key

  serve_limited-Agrees :
      (a : Arrival) (l : Limiter) (world : World Backend)
      → IsFull l
      → lookup (rate_limit_key a.request) l.buckets ≡ none
      → Agrees l
          (rate_limit_key a.request)
          (serve_limited metrics_page s a (live_of (some l) world))
          (serve_limited metrics_page s a (free world))
  unfolding serve_limited
  serve_limited-Agrees a l world full missing =
      let key = rate_limit_key a.request in
      let enough = fresh-granted l key a.now full missing in
      elim (rate_limit_middleware-cases (serve_http s.proxy.handler) a.created a.now a.request l
        world) [
          | inr (few, refused) ↦ absurd (omega arith)
          | inl (_, through) ↦ (
            (allow l key a.created a.now).1,
            ap
                (λ (run : Outcome × (Limiter × World Backend)).
                  (run.0, live_of (some run.1.0) run.1.1))
                through,
            allow-Passes l key a.created a.now full,
          )
        ]

  pub serve_main-Agrees :
      (a : Arrival) (l : Limiter) (world : World Backend)
      → IsFull l
      → lookup (rate_limit_key a.request) l.buckets ≡ none
      → Agrees l
          (rate_limit_key a.request)
          (serve_main metrics_page s a (live_of (some l) world))
          (serve_main metrics_page s a (free world))
  unfolding serve_main
  serve_main-Agrees a l world full missing =
      elim (Bool-cases (s.metrics_on_main && bytes_equal a.request.path (codes "/metrics"))) [
        | inl metrics ↦
            rw (metrics, serve_main) (l, refl, record { full = full; others = λ other h. refl })
        | inr other ↦ rw (other, serve_main) (serve_limited-Agrees a l world full missing)
      ]

  serve_main-free :
      (a : Arrival) (world : World Backend)
      → (serve_main metrics_page s a (free world)).1.limiter ≡ none
  unfolding serve_main serve_limited
  serve_main-free a world =
      elim (Bool-cases (s.metrics_on_main && bytes_equal a.request.path (codes "/metrics"))) [
        | inl metrics ↦ rw (metrics, serve_main) refl
        | inr other ↦ rw (other, serve_main) refl
      ]

  pub serve_all-free :
      (past : List Arrival) (world : World Backend)
      → serve_all metrics_page s past (free world)
        ≡ free (serve_all metrics_page s past (free world)).world
  unfolding serve_all
  serve_all-free [] world = refl
  serve_all-free (a ∷ past) world =
      let w = (serve_all metrics_page s past (free world)).world in
      let step : (serve_main metrics_page s a (free w)).1
          ≡ free (serve_main metrics_page s a (free w)).1.world =
        ap (λ x. live_of x (serve_main metrics_page s a (free w)).1.world) (serve_main-free a w) in
      subst
        (λ (live : Live).
          (serve_main metrics_page s a live).1 ≡ free (serve_main metrics_page s a live).1.world)
        (sym (serve_all-free past world)) step
