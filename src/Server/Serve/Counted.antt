-- ===== src/Server/Serve/Counted.antt =====
-- What a started server (main.go) counts in gql_firewall_requests_total.
use gql_firewall.Base.{
  on_branch, ℕ, Bytes, Bool, true, not, ◌&&◌, ◌++◌, Option, none, some, codes, ltb, ◌≡◌, ◌∙◌, inl,
  inr, refl, sym, ap, subst, Option-cases, Bool-cases, bytes_equal, bytes_equal_iff, ◌⊎◌, arith,
}
use gql_firewall.Metrics.{
  Events, requests_blocked, opa_requests, opa_audit_blocks, record_block, record_opa,
  record_opa_audit_block,
}
use gql_firewall.Opa.Json.{Result}
use gql_firewall.Parser.Info.{QueryInfo}
use gql_firewall.Proxy.Accounting.{outcomes, outcomes-quiet}
use gql_firewall.Proxy.Accounting.Flow.{IsQueryRequest, ends, serve_http-outcomes}
use gql_firewall.Proxy.Handler.{World}
use gql_firewall.Proxy.Http.{Response, Outcome, replied}
use gql_firewall.Proxy.Serve.{serve_http}
use gql_firewall.Proxy.Text.{is_graphql_path}
use gql_firewall.Server.Evaluate.{
  Config, State, answer_cached, answer_error, enforce, cache_store, evaluate_opa, evaluate_policy,
  schema_refusal, evaluate,
}
use gql_firewall.Server.Evaluate.Outcomes.{asked, cached_at}
use gql_firewall.Ratelimit.{Limiter}
use gql_firewall.Server.Middleware.{rate_limit_middleware, too_many_requests}
use gql_firewall.Server.Middleware.Laws.{rate_limit_middleware-cases}
use gql_firewall.Server.Serve.{Live, Arrival, serve_limited, serve_main}
use gql_firewall.Opa.Store.{DataStore}
use gql_firewall.Server.Evaluate.Vouched.{at_store}
use gql_firewall.Server.Serve.Changing.{server_at}
use gql_firewall.Server.Serve.Routes.{WithinLimit}
use gql_firewall.Server.Pipeline.{Backend, composite, lookup_time, store_time}
use gql_firewall.Server.Startup.{Flags, Environment, Server, ready, start}
use gql_firewall.Server.Startup.Laws.Wiring.{start-IsWired}

-- The outcomes counted so far are those of the state before.
abbrev Counts : Events → Result × State → Type 0
Counts log p = outcomes p.1.events ≡ outcomes log

blocked_quiet : (reason : Bytes) (log : Events) → outcomes (record_block reason log) ≡ outcomes log
unfolding outcomes
blocked_quiet reason log = outcomes-quiet (requests_blocked reason) log refl

opa_quiet : (outcome : Bytes) (log : Events) → outcomes (record_opa outcome log) ≡ outcomes log
unfolding outcomes
opa_quiet outcome log = outcomes-quiet (opa_requests outcome) log refl

audit_quiet :
    (reason : Bytes) (log : Events) → outcomes (record_opa_audit_block reason log) ≡ outcomes log
unfolding outcomes
audit_quiet reason log = outcomes-quiet (opa_audit_blocks reason) log refl

answer_cached-Counts :
    (audit : Bool) (r : Result) (s : State) → Counts s.events (answer_cached audit r s)
unfolding answer_cached
answer_cached-Counts audit r s =
    let hit = opa_quiet (codes "cache_hit") s.events in
    on_branch (Counts s.events) (audit && not r.allowed) _ _ (audit_quiet r.reason _ ∙ hit) hit

answer_error-Counts : (closed : Bool) (s : State) → Counts s.events (answer_error closed s)
unfolding answer_error
answer_error-Counts closed s =
    let asked = opa_quiet (codes "error") s.events in
    on_branch (Counts s.events) closed _ _ asked asked

enforce-Counts : (audit : Bool) (r : Result) (s : State) → Counts s.events (enforce audit r s)
unfolding enforce
enforce-Counts audit r s =
    let asked = opa_quiet (codes "evaluated") s.events in
    on_branch (Counts s.events) r.allowed _ _ asked (
      on_branch (Counts s.events) audit _ _ (audit_quiet r.reason _ ∙ asked)
        (blocked_quiet r.reason _ ∙ asked))

cache_store-events :
    (ttl : ℕ) (key : Bytes) (r : Result) (later : ℕ) (s : State)
    → (cache_store ttl key r later s).events ≡ s.events
unfolding cache_store
cache_store-events ttl key r later s =
    on_branch (λ (x : State). x.events ≡ s.events) (ltb 0 ttl) _ _ refl refl

evaluate_opa-Counts :
    (c : Config) (later : ℕ) (key : Bytes) (o : Option Result) (s : State)
    → Counts s.events (evaluate_opa c later key o s)
unfolding evaluate_opa
evaluate_opa-Counts c later key none s = answer_error-Counts c.opa_fail_closed s
evaluate_opa-Counts c later key (some r) s =
    ap outcomes (cache_store-events c.cache_ttl key _ later _) ∙ enforce-Counts c.opa_audit_only r s

evaluate_policy-Counts :
    (c : Config) (now later : ℕ) (info : QueryInfo) (s : State)
    → Counts s.events (evaluate_policy c now later info s)
unfolding evaluate_policy
evaluate_policy-Counts c now later info s = elim (Option-cases (cached_at c now info s)) [
  | inr (r, hit) ↦ rw (hit, evaluate_policy) (answer_cached-Counts c.opa_audit_only r s)
  | inl miss ↦ rw (miss, evaluate_policy) (evaluate_opa-Counts c later _ (c.opa (asked c info)) s)
]

evaluate-Counts :
    (c : Config) (now later : ℕ) (info : QueryInfo) (s : State)
    → Counts s.events (evaluate c now later info s)
unfolding evaluate
evaluate-Counts c now later info s = elim (Option-cases (schema_refusal c info)) [
  | inr (reason, bad) ↦ rw (bad, evaluate) (blocked_quiet reason s.events)
  | inl fine ↦ rw (fine, evaluate) (evaluate_policy-Counts c now later info s)
]

composite-events :
    (c : Config) (info : QueryInfo) (w : World Backend)
    → outcomes (composite c info w).1.events ≡ outcomes w.events
unfolding composite
composite-events c info w =
    evaluate-Counts c (lookup_time w.state) (store_time w.state) info
      (record { cache = w.state.cache; events = w.events })

metrics-graphql :
    (path : Bytes) → is_graphql_path path ≡ true → bytes_equal path (codes "/metrics") ≡ true → ⊥
unfolding is_graphql_path
metrics-graphql path graphql metrics =
    let same : path ≡ codes "/metrics" = (bytes_equal_iff path (codes "/metrics")).0 metrics in
    let wrong = subst (λ p. is_graphql_path p ≡ true) same graphql in ground arith

module _ (metrics_page : Events → Response) (s : Server) (a : Arrival) where
  -- The limiter let the request through and it is counted as it ends, or it is refused and not counted.
  abbrev pub CountedOrRefused : Live → Outcome × Live → Type 0
  CountedOrRefused live run =
      (WithinLimit a live.limiter
        × (outcomes run.1.world.events ≡ outcomes live.world.events ++ ends s.proxy.handler run.0))
      ⊎ ((¬ WithinLimit a live.limiter)
          × (run.0 ≡ replied too_many_requests)
          × (run.1.world ≡ live.world))

  serve_limited-outcomes :
      (limiter : Option Limiter) (world : World Backend)
      → (outcomes (serve_http s.proxy.handler a.request world).1.events
          ≡ outcomes world.events
            ++ ends s.proxy.handler (serve_http s.proxy.handler a.request world).0)
      → CountedOrRefused
          (record { limiter = limiter; world = world })
          (serve_limited metrics_page s a (record { limiter = limiter; world = world }))
  unfolding serve_limited
  serve_limited-outcomes none world counted = inl (tt, counted)
  serve_limited-outcomes (some l) world counted =
      let run : Outcome × (Limiter × World Backend) =
        rate_limit_middleware (serve_http s.proxy.handler) a.created a.now a.request (l, world) in
      elim (rate_limit_middleware-cases (serve_http s.proxy.handler) a.created a.now a.request l
        world) [
          | inl (enough, through) ↦ inl (
            enough,
            subst
                (λ (p : Outcome × (Limiter × World Backend)).
                  outcomes p.1.1.events ≡ outcomes world.events ++ ends s.proxy.handler p.0)
                (sym through) counted,
          )
          | inr (few, refused) ↦
              inr (λ enough. omega arith, ap (λ p. p.0) refused, ap (λ p. p.1.1) refused)
        ]

-- A started server, with whatever the store has by then, with a request on a GraphQL path that is a GET, or a POST with a JSON content type: if
-- there is no rate limit, or the limiter has a token for its key, it is counted in
-- gql_firewall_requests_total, as "allowed" exactly if it is forwarded, and then once more as "error" if
-- the upstream panics, as "blocked" if it is answered 403, and as "error" with any other answer. Otherwise
-- it is answered 429, and nothing is counted.
pub start-outcomes :
    (metrics_page : Events → Response) (env : Environment) (f : Flags) (s : Server)
    (store : DataStore) (a : Arrival) (live : Live)
    → start env f ≡ ready s
    → is_graphql_path a.request.path ≡ true
    → IsQueryRequest a.request
    → CountedOrRefused metrics_page
        (server_at store s)
        a
        live
        (serve_main metrics_page (server_at store s) a live)
unfolding serve_main
start-outcomes metrics_page env f s store a live started path query =
    let wired = start-IsWired env f s started in
    let counted =
      serve_http-outcomes (server_at store s).proxy.handler a.request live.world
        (λ info v. composite-events (at_store store s.config) info v) wired.recovers path query in
    elim (Bool-cases (s.metrics_on_main && bytes_equal a.request.path (codes "/metrics"))) [
      | inl metrics ↦ absurd (metrics-graphql a.request.path path (ground arith))
      | inr other ↦
          rw (other, serve_main)
            (serve_limited-outcomes metrics_page (server_at store s) a live.limiter live.world
              counted)
    ]
