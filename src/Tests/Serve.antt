-- ===== src/Tests/Serve.antt =====
-- The sample server on its first request, which it forwards.
use gql_firewall.Base.{
  List, none, inr, codes, arith, length, ◌*◌, ◌≤◌, Bytes, [], ◌∷◌, ◌≡◌, refl, All,
}
use gql_firewall.Metrics.{Events}
use gql_firewall.Proxy.Http.{content, Response, forwarded, http_error}
use gql_firewall.Proxy.Handler.{set_security_headers}
use gql_firewall.Proxy.Mediation.Evidence.{Inspected, Sent}
use gql_firewall.Ratelimit.{bucket_of, refill, take_token, allow}
use gql_firewall.Server.Evaluate.{evaluate}
use gql_firewall.Server.Middleware.{rate_limit_key, rate_limit_middleware}
use gql_firewall.Server.Pipeline.{composite}
use gql_firewall.Server.Serve.{Live, Arrival, serve_limited, serve_main, serve_all}
use gql_firewall.Server.Serve.Bounded
use gql_firewall.Server.Serve.Changing.{
  Happening, arrives, changes, server_at, store_after, live_after, WasAsked,
}
use gql_firewall.Opa.Store.{new_data_store, new_tenant, apply_change}
use gql_firewall.Server.Startup.{Server}
use gql_firewall.Server.Serve.Counted
use gql_firewall.Server.Serve.Counted.{CountedOrRefused}
use gql_firewall.Proxy.Accounting.{outcomes}
use gql_firewall.Proxy.Accounting.Flow.{IsQueryRequest}
use gql_firewall.Server.Serve.Decided
use gql_firewall.Server.Serve.Decided.{PolicyAllowed}
use gql_firewall.Proxy.Mediation.Queries.{queries}
use gql_firewall.Server.Serve.Allowed.{Vouched}
use gql_firewall.Server.Serve.Unlimited
use gql_firewall.Server.Serve.Routes.{WithinLimit}
use gql_firewall.Opa.Embedded.{embedded_evaluate}
use gql_firewall.Opa.Input.{build_input}
use gql_firewall.Server.CacheKey.{decision_cache_key}
use gql_firewall.Tests.Proxy.{sample_request, sent_request, handling}
use gql_firewall.Tests.Startup.{
  sample_environment, sample_flags, sample_server, sample_starts, starting,
}

abbrev pub blank_page : Events → Response
blank_page events = http_error [] [] 200

abbrev pub first : Live
first = record {
  limiter = sample_server.limiter;
  world = record { state = record { cache = []; clock = λ n. n; evaluations = 0 }; events = [] };
}

abbrev pub arrival : Arrival
arrival = record { request = sample_request; created = 7; now = 8 }

unfoldable pub serving : Unit {0}
unfolding handling starting serve_main serve_limited serve_all rate_limit_middleware rate_limit_key
    allow bucket_of refill take_token composite evaluate build_input decision_cache_key
    embedded_evaluate
serving = tt

first_is_forwarded :
    (serve_main blank_page sample_server arrival first).0
    ≡ forwarded (set_security_headers []) sent_request
unfolding serving
first_is_forwarded = refl

abbrev past : Arrival
past = record arrival { created = 3; now = 4 }

-- A request is answered, and then a tenant is stored.
abbrev happened : List Happening
happened = changes (new_tenant (codes "acme") none) ∷ arrives past ∷ []

abbrev server_now : Server
server_now = server_at (store_after happened new_data_store) sample_server

abbrev live_now : Live
live_now = live_after blank_page sample_server happened new_data_store first

serve_main-PolicyAllowed_example :
    WithinLimit arrival live_now.limiter
    × ((text : Bytes) × (i : Inspected server_now.proxy.handler
          (Vouched sample_server.config
            (WasAsked sample_server (arrives arrival ∷ happened) new_data_store))
          sample_request
          text)
        × Sent sample_request text (set_security_headers []) sent_request
        × All
            (λ q.
              PolicyAllowed sample_environment sample_flags sample_server.config
                (WasAsked sample_server (arrives arrival ∷ happened) new_data_store)
                (store_after happened new_data_store)
                q.1)
            (queries server_now.proxy.handler
              (Vouched sample_server.config
                (WasAsked sample_server (arrives arrival ∷ happened) new_data_store))
              i))
unfolding serving store_after live_after apply_change
serve_main-PolicyAllowed_example =
    Decided.serve_main-PolicyAllowed blank_page sample_environment sample_flags sample_server
      happened new_data_store first (serve_main blank_page server_now arrival live_now).1 arrival
      (set_security_headers []) sent_request sample_starts refl refl refl refl refl

serve_main-length-le_example :
    (text : Bytes) × (sent_request.body ≡ content text)
    × (sent_request.content_length ≡ length text)
    × (length text ≤ 1 * 1048576)
unfolding serving
serve_main-length-le_example =
    Bounded.serve_main-length-le blank_page sample_environment sample_flags sample_server 1 first
      (serve_main blank_page sample_server arrival first).1 arrival (set_security_headers [])
      sent_request sample_starts refl (omega arith) (omega arith) refl refl refl

sample_request-IsQueryRequest : IsQueryRequest sample_request
unfolding serving IsQueryRequest
sample_request-IsQueryRequest = inr (refl, refl)

start-outcomes_example :
    CountedOrRefused blank_page server_now arrival first
      (serve_main blank_page server_now arrival first)
unfolding serving
start-outcomes_example =
    Counted.start-outcomes blank_page sample_environment sample_flags sample_server
      (store_after happened new_data_store) arrival first sample_starts refl
      sample_request-IsQueryRequest

first_is_counted :
    outcomes (serve_main blank_page sample_server arrival first).1.world.events
    ≡ codes "allowed" ∷ []
unfolding serving outcomes
first_is_counted = refl

-- Requests of one client at one time, each with an API key that it made up.
abbrev made_up : Bytes → Arrival
made_up key = record arrival {
  request = record sample_request { headers = (codes "X-API-Key", key) ∷ sample_request.headers };
}

abbrev flood : List Arrival
flood = made_up (codes "1") ∷ made_up (codes "2") ∷ made_up (codes "3") ∷ made_up (codes "4") ∷ []

start-unlimited_example :
    ((serve_main blank_page sample_server
        (made_up (codes "5"))
        (serve_all blank_page sample_server flood first)).0
      ≡ (serve_main blank_page sample_server
          (made_up (codes "5"))
          (serve_all blank_page sample_server flood (record first { limiter = none }))).0)
    × ((serve_main blank_page sample_server
          (made_up (codes "5"))
          (serve_all blank_page sample_server flood first)).1.world
        ≡ (serve_main blank_page sample_server
            (made_up (codes "5"))
            (serve_all blank_page sample_server flood (record first { limiter = none }))).1.world)
unfolding serving
start-unlimited_example =
    Unlimited.start-unlimited blank_page sample_environment sample_flags sample_server flood
      (made_up (codes "5")) first.world sample_starts
      (
        (refl, (refl, (refl, (refl, tt)))),
        ((refl, (refl, (refl, tt))), ((refl, (refl, tt)), ((refl, tt), (tt, tt)))),
      )
