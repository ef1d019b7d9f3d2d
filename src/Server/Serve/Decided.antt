-- ===== src/Server/Serve/Decided.antt =====
-- The way from a forwarded request (main.go) back to the policy that decided on it.
use gql_firewall.Base.{
  Bytes, true, false, List, [], ◌∷◌, none, Map, All, All-map, ◌≡◌, ◌⊎◌, ◌<◌, inl, inr,
}
use gql_firewall.Metrics.{Events}
use gql_firewall.Parser.Info.{QueryInfo}
use gql_firewall.Proxy.Http.{Request, Response, forwarded}
use gql_firewall.Proxy.Mediation.Evidence.{Inspected, Sent}
use gql_firewall.Proxy.Mediation.Queries.{queries}
use gql_firewall.Proxy.Text.{is_graphql_path}
use gql_firewall.Server.CacheKey.{decision_cache_key}
use gql_firewall.Server.Evaluate.{Config, schema_refusal}
use gql_firewall.Server.Evaluate.Outcomes.{asked}
use gql_firewall.Server.Evaluate.Vouched.{at_store, OpaAllows, IsAllowed}
use gql_firewall.Server.Serve.{Live, Arrival, serve_main}
use gql_firewall.Server.Serve.Changing.{
  Happening, server_at, store_after, live_after, arrives, WasAsked,
}
use gql_firewall.Opa.Store.{DataStore}
use gql_firewall.Server.Serve.Allowed.{Vouched, serve_main-IsAllowed}
use gql_firewall.Server.Serve.Routes.{WithinLimit}
use gql_firewall.Server.Startup.{Environment, Flags, Server, ready, start}
use gql_firewall.Server.Startup.Laws.Policies.{PolicySays, start-PolicySays}

-- The schema accepts the query itself, and the policy allowed it under the store as it is, or, with
-- caching on, a query with the same cache key that was asked, under the store with which it was.
abbrev pub PolicyAllowed :
    Environment → Flags → Config → (DataStore → QueryInfo → Type 0) → DataStore → QueryInfo → Type 0
PolicyAllowed env f c H now info =
    (schema_refusal c info ≡ none)
    × (PolicySays env f (asked (at_store now c) info)
        ⊎ ((0 < c.cache_ttl)
            × ((query : QueryInfo) × (store : DataStore) × (decision_cache_key query
                  ≡ decision_cache_key info)
                × H store query
                × PolicySays env f (asked (at_store store c) query))))

IsAllowed-PolicyAllowed :
    (env : Environment) (f : Flags) (s : Server) (H : DataStore → QueryInfo → Type 0)
    (now : DataStore) (info : QueryInfo)
    → start env f ≡ ready s
    → IsAllowed s.config H now info
    → PolicyAllowed env f s.config H now info
unfolding OpaAllows
IsAllowed-PolicyAllowed env f s H now info started (fine, inl (r, answer, yes_)) = (
  fine,
  inl (start-PolicySays env f s (asked (at_store now s.config) info) r started answer yes_),
)
IsAllowed-PolicyAllowed env f s H now info started (fine, inr (on, (r, answered, yes_))) =
    let input = asked (at_store answered.store s.config) answered.query in
    (
      fine,
      inr (
        on,
        (
          answered.query,
          answered.store,
          answered.same_key,
          answered.had,
          start-PolicySays env f s input r started answered.answer yes_,
        ),
      ),
    )

-- A server started with `--opa-fail-closed` and without `--opa-audit-only` has an empty cache and has
-- answered any sequence of requests, among which the admin API changed the store in any way. If it then
-- forwards a request on a GraphQL path, the limiter, if there is one, had a token for its key, and what it
-- forwards was inspected. Each query in it is accepted by the schema. The policy allows it with the
-- store as it is, or, if decisions are cached, allows a query with the same cache key that this request
-- or an earlier one carried, with the store as it was when that request came: the sidecar of `--opa` answers 200 with an allowed result, or the allow query of the file of
-- `--opa-embed` gives `true`.
pub serve_main-PolicyAllowed :
    (metrics_page : Events → Response) (env : Environment) (f : Flags) (s : Server)
    (past : List Happening) (d : DataStore) (first live' : Live) (a : Arrival) (headers : Map Bytes)
    (r' : Request)
    → start env f ≡ ready s
    → f.opa_fail_closed ≡ true
    → f.opa_audit_only ≡ false
    → first.world.state.cache ≡ []
    → is_graphql_path a.request.path ≡ true
    → serve_main metrics_page
        (server_at (store_after past d) s)
        a
        (live_after metrics_page s past d first)
      ≡ (forwarded headers r', live')
    → WithinLimit a (live_after metrics_page s past d first).limiter
      × ((text : Bytes) × (i : Inspected
            (server_at (store_after past d) s).proxy.handler
            (Vouched s.config (WasAsked s (arrives a ∷ past) d))
            a.request
            text)
          × Sent a.request text headers r'
          × All
              (λ q.
                PolicyAllowed env f s.config
                  (WasAsked s (arrives a ∷ past) d)
                  (store_after past d)
                  q.1)
              (queries
                (server_at (store_after past d) s).proxy.handler
                (Vouched s.config (WasAsked s (arrives a ∷ past) d))
                i))
serve_main-PolicyAllowed metrics_page env f s past d first live' a headers r' started closed
      enforced empty path e =
    let H = WasAsked s (arrives a ∷ past) d in
    let now = store_after past d in
    let (within, (text, seen, sent, allowed)) =
      serve_main-IsAllowed metrics_page env f s past d first live' a headers r' started closed
        enforced empty path e in
    (
      within,
      (
        text,
        seen,
        sent,
        All-map (λ q. IsAllowed s.config H now q.1) (λ q. PolicyAllowed env f s.config H now q.1)
            (λ q h. IsAllowed-PolicyAllowed env f s H now q.1 started h)
            (queries (server_at now s).proxy.handler (Vouched s.config H) seen) allowed,
      ),
    )
