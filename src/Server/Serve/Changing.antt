-- ===== src/Server/Serve/Changing.antt =====
-- The main port (main.go) while the admin API changes the store that both share: requests and changes in
-- the order in which they come.
use gql_firewall.Base.{List, [], ◌∷◌, ◌≡◌, ◌⊎◌, inl, inr, refl}
use gql_firewall.Metrics.{Events}
use gql_firewall.Opa.Store.{DataStore, Change, apply_change}
use gql_firewall.Parser.Info.{QueryInfo}
use gql_firewall.Proxy.Handler.{World}
use gql_firewall.Proxy.Carried.{Carried}
use gql_firewall.Proxy.Http.{Response}
use gql_firewall.Server.Evaluate.Vouched.{at_store}
use gql_firewall.Server.Pipeline.{Backend, composite}
use gql_firewall.Server.Serve.{Live, Arrival, serve_main}
use gql_firewall.Server.Serve.Routes.{serve_main-Holds}
use gql_firewall.Server.Startup.{Server}

pub data Happening : Type 0 where
  arrives : Arrival → Happening
  changes : Change → Happening

-- The server with the store as it is.
abbrev pub server_at : DataStore → Server → Server
server_at store s = record s {
  config = at_store store s.config;
  proxy = record s.proxy {
    handler = record s.proxy.handler { evaluate = composite (at_store store s.config) };
  };
}

-- The store after what happened, the latest first.
unfoldable pub store_after : List Happening → DataStore → DataStore
store_after [] d = d
store_after (arrives a ∷ past) d = store_after past d
store_after (changes ch ∷ past) d = apply_change ch (store_after past d)

-- The limiter, the evaluator and the metrics after what happened.
unfoldable pub live_after : (Events → Response) → Server → List Happening → DataStore → Live → Live
live_after metrics_page s [] d live = live
live_after metrics_page s (arrives a ∷ past) d live =
    (serve_main metrics_page (server_at (store_after past d) s) a
      (live_after metrics_page s past d live)).1
live_after metrics_page s (changes ch ∷ past) d live = live_after metrics_page s past d live

-- A request carried the query, and the store had these contents when it came.
abbrev pub WasAsked : Server → List Happening → DataStore → DataStore → QueryInfo → Type 0
WasAsked s [] d store query = ⊥
WasAsked s (arrives a ∷ past) d store query =
    WasAsked s past d store query
    ⊎ ((store ≡ store_after past d)
        × Carried (server_at (store_after past d) s).proxy.handler a.request query)
WasAsked s (changes ch ∷ past) d store query = WasAsked s past d store query

-- What the evaluator keeps true of its state with every query that was asked, the requests keep.
module _ (metrics_page : Events → Response) (s : Server) (H : DataStore → QueryInfo → Type 0)
    (I : Backend → Type 0)
    (keeps : (store : DataStore) (info : QueryInfo) (w : World Backend)
      → H store info
      → I w.state
      → I (composite (at_store store s.config) info w).1.state) where
  pub live_after-Holds :
      (past : List Happening) (d : DataStore) (live : Live)
      → ((store : DataStore) (query : QueryInfo) → WasAsked s past d store query → H store query)
      → I live.world.state
      → I (live_after metrics_page s past d live).world.state
  unfolding live_after
  live_after-Holds [] d live asked i = i
  live_after-Holds (arrives a ∷ past) d live asked i =
      let now = store_after past d in
      serve_main-Holds metrics_page (server_at now s) I a
        (λ info w carried. keeps now info w (asked now info (inr (refl, carried))))
        (live_after metrics_page s past d live)
        (live_after-Holds past d live (λ store query h. asked store query (inl h)) i)
  live_after-Holds (changes ch ∷ past) d live asked i = live_after-Holds past d live asked i
