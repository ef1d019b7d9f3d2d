-- ===== src/Server/Serve.antt =====
-- What `main` (main.go) serves: on its main port the routes, the rate limiter and the proxy, over a
-- sequence of requests, and on another the admin API. promhttp's page is a parameter, and the mux has cleaned the path
-- before.
pub mod Routes
pub mod Changing
pub mod Allowed
pub mod Decided
pub mod Typed
pub mod Bounded
pub mod Counted
pub mod Fresh
pub mod Unlimited
pub mod AdminPort
use gql_firewall.Base.{
  ℕ, List, [], ◌∷◌, Option, none, some, ◌&&◌, bytes_equal, if◌then◌else◌, codes,
}
use gql_firewall.Metrics.{Events}
use gql_firewall.Proxy.Http.{Request, Response, Outcome, replied}
use gql_firewall.Proxy.Handler.{World}
use gql_firewall.Proxy.Serve.{serve_http}
use gql_firewall.Ratelimit.{Limiter}
use gql_firewall.Server.Admin.{AdminLibrary, AdminState, admin_mux}
use gql_firewall.Server.Middleware.{rate_limit_middleware}
use gql_firewall.Server.Pipeline.{Backend}
use gql_firewall.Server.Startup.{Server}

-- The limiter, if there is one, and the state of the evaluator with the metrics.
pub record Live : Type 0 where
  pub limiter : Option Limiter
  pub world : World Backend

-- A request with the two times at which the limiter reads the clock.
pub record Arrival : Type 0 where
  pub request : Request
  pub created : ℕ
  pub now : ℕ

module _ (metrics_page : Events → Response) (s : Server) where
  -- `rateLimitHandler`
  unfoldable pub serve_limited : Arrival → Live → Outcome × Live
  serve_limited a live = elim live.limiter [
    | none ↦
        let (outcome, world) = serve_http s.proxy.handler a.request live.world in
        (outcome, record live { world = world })
    | some l ↦
        let (outcome, (l', world)) =
          rate_limit_middleware (serve_http s.proxy.handler) a.created a.now a.request
            (l, live.world) in
        (outcome, record { limiter = some l'; world = world })
  ]

  -- The mux of the main port.
  unfoldable pub serve_main : Arrival → Live → Outcome × Live
  unfolding serve_limited
  serve_main a live =
      if s.metrics_on_main && bytes_equal a.request.path (codes "/metrics")
      then (replied (metrics_page live.world.events), live)
      else serve_limited a live

  -- The state after a sequence of requests, the latest first.
  unfoldable pub serve_all : List Arrival → Live → Live
  unfolding serve_main
  serve_all [] live = live
  serve_all (a ∷ arrivals) live = (serve_main a (serve_all arrivals live)).1

-- `startAdminAPI`, if there is an address for it: what its server answers.
unfoldable pub serve_admin :
    AdminLibrary → Server → Request → AdminState → Option (Response × AdminState)
serve_admin lib s r a = elim s.admin [ none ↦ none | some token ↦ some (admin_mux lib token r a) ]
