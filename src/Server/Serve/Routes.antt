-- ===== src/Server/Serve/Routes.antt =====
-- What reaches the proxy from the main port (main.go), and what the routes keep.
use gql_firewall.Base.{
  ◌≤◌, Bytes, Option, none, some, Map, ◌&&◌, bytes_equal, codes, ◌≡◌, inl, inr, sym, ap, ap₂, subst,
  ◌∙◌, Bool-cases,
}
use gql_firewall.Metrics.{Events}
use gql_firewall.Parser.Info.{QueryInfo}
use gql_firewall.Proxy.Carried.{Carried}
use gql_firewall.Proxy.Http.{Request, Response, Outcome, replied, forwarded}
use gql_firewall.Proxy.Handler.{World}
use gql_firewall.Proxy.Invariant.{serve_http-Holds}
use gql_firewall.Proxy.Serve.{serve_http}
use gql_firewall.Ratelimit.{Limiter, token}
use gql_firewall.Ratelimit.Credit.{credit}
use gql_firewall.Server.Middleware.{rate_limit_key}
use gql_firewall.Server.Middleware.Laws.{rate_limit_middleware-cases}
use gql_firewall.Server.Pipeline.{Backend}
use gql_firewall.Server.Serve.{Live, Arrival, serve_limited, serve_main}
use gql_firewall.Server.Startup.{Server}

-- The limiter, if there is one, has a whole token for the request's key.
abbrev pub WithinLimit : Arrival → Option Limiter → Type 0
WithinLimit a none = Unit
WithinLimit a (some l) = token ≤ credit l (rate_limit_key a.request) a.now

replied-ne-forwarded :
    (response : Response) (headers : Map Bytes) (r : Request)
    → ¬ (replied response ≡ forwarded headers r)
replied-ne-forwarded response headers r e = cc

module _ (metrics_page : Events → Response) (s : Server) where
  serve_limited-forwarded :
      (a : Arrival) (limiter : Option Limiter) (world : World Backend) (headers : Map Bytes)
      (r' : Request) (live' : Live)
      → serve_limited metrics_page s a (record { limiter = limiter; world = world })
        ≡ (forwarded headers r', live')
      → WithinLimit a limiter
        × (serve_http s.proxy.handler a.request world ≡ (forwarded headers r', live'.world))
  unfolding serve_limited
  serve_limited-forwarded a none world headers r' live' e = (tt, λ i. ((e i).0, (e i).1.world))
  serve_limited-forwarded a (some l) world headers r' live' e =
      let out = λ (run : Outcome × (Limiter × World Backend)). run.0 in
      let world_of = λ (run : Outcome × (Limiter × World Backend)). run.1.1 in
      let ends = ap (λ (run : Outcome × Live). run.0) e in
      let leaves = ap (λ (run : Outcome × Live). run.1.world) e in
      elim (rate_limit_middleware-cases (serve_http s.proxy.handler) a.created a.now a.request l
        world) [
          | inl (enough, through) ↦ (
            enough,
            ap₂ (λ o w. (o, w)) (sym (ap out through) ∙ ends) (sym (ap world_of through) ∙ leaves),
          )
          | inr (few, refused) ↦ absurd (replied-ne-forwarded _ _ _ (sym (ap out refused) ∙ ends))
        ]

  -- What is forwarded from the main port came through the limiter, and from the proxy.
  pub serve_main-forwarded :
      (a : Arrival) (live live' : Live) (headers : Map Bytes) (r' : Request)
      → serve_main metrics_page s a live ≡ (forwarded headers r', live')
      → WithinLimit a live.limiter
        × (serve_http s.proxy.handler a.request live.world ≡ (forwarded headers r', live'.world))
  unfolding serve_main
  serve_main-forwarded a live live' headers r' e =
      elim (Bool-cases (s.metrics_on_main && bytes_equal a.request.path (codes "/metrics"))) [
        | inl metrics ↦ absurd (
            replied-ne-forwarded _ _ _
              (ap (λ (run : Outcome × Live). run.0) (rw (metrics, serve_main) at e)))
        | inr other ↦
            serve_limited-forwarded a live.limiter live.world headers r' live'
              (rw (other, serve_main) at e)
      ]

  -- What the evaluator keeps true of its state, the main port keeps.
  module _ (I : Backend → Type 0) (a : Arrival)
      (keeps : (info : QueryInfo) (w : World Backend)
        → Carried s.proxy.handler a.request info
        → I w.state
        → I (s.proxy.handler.evaluate info w).1.state) where
    serve_limited-Holds :
        (limiter : Option Limiter) (world : World Backend)
        → I world.state
        → I
            (serve_limited metrics_page s a
              (record { limiter = limiter; world = world })).1.world.state
    unfolding serve_limited
    serve_limited-Holds none world i = serve_http-Holds s.proxy.handler I a.request keeps world i
    serve_limited-Holds (some l) world i =
        let state_of = λ (run : Outcome × (Limiter × World Backend)). run.1.1.state in
        elim (rate_limit_middleware-cases (serve_http s.proxy.handler) a.created a.now a.request l
          world) [
            | inl (enough, through) ↦
                subst I (sym (ap state_of through))
                  (serve_http-Holds s.proxy.handler I a.request keeps world i)
            | inr (few, refused) ↦ subst I (sym (ap state_of refused)) i
          ]

    pub serve_main-Holds :
        (live : Live) → I live.world.state → I (serve_main metrics_page s a live).1.world.state
    unfolding serve_main
    serve_main-Holds live i =
        elim (Bool-cases (s.metrics_on_main && bytes_equal a.request.path (codes "/metrics"))) [
          | inl metrics ↦ rw (metrics, serve_main) i
          | inr other ↦ rw (other, serve_main) (serve_limited-Holds live.limiter live.world i)
        ]
