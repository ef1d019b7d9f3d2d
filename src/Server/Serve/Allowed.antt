-- ===== src/Server/Serve/Allowed.antt =====
-- What a server that `main` (main.go) started lets through, over any sequence of requests.
use gql_firewall.Base.{
  Bytes, true, false, List, [], ◌∷◌, inl, inr, Map, lookup, All, All-map, ◌≡◌, ◌∙◌, refl, sym, ap,
  arith,
}
use gql_firewall.Opa.Json.{Result}
use gql_firewall.Parser.Info.{QueryInfo}
use gql_firewall.Proxy.Handler.{Verdict, World, Handler, decided}
use gql_firewall.Proxy.Http.{Request, Response, forwarded}
use gql_firewall.Proxy.Mediation.Evidence.{Approved, Inspected, Sent}
use gql_firewall.Proxy.Mediation.Queries.{Asked, queries, queries-Asked}
use gql_firewall.Metrics.{Events}
use gql_firewall.Proxy.Text.{is_graphql_path}
use gql_firewall.Proxy.Mediation.{serve_http-Inspected}
use gql_firewall.Server.Serve.{Live, Arrival, serve_main}
use gql_firewall.Server.Serve.Changing.{
  Happening, server_at, store_after, live_after, arrives, WasAsked, live_after-Holds,
}
use gql_firewall.Opa.Store.{DataStore}
use gql_firewall.Server.Serve.Routes.{WithinLimit, serve_main-forwarded}
use gql_firewall.Server.Startup.{Environment, Flags, Server, ready, start}
use gql_firewall.Server.Startup.Laws.Wiring.{start-IsWired}
use gql_firewall.Server.Evaluate.{Config, State, evaluate}
use gql_firewall.Server.Evaluate.Vouched.{
  at_store, IsVouched, evaluate-IsVouched, IsAllowed, evaluate-IsAllowed,
}
use gql_firewall.Server.Pipeline.{Backend, composite, lookup_time, store_time}

composite-IsVouched :
    (c : Config) (H : DataStore → QueryInfo → Type 0) (store : DataStore) (info : QueryInfo)
    (w : World Backend)
    → H store info
    → IsVouched c H w.state.cache
    → IsVouched c H (composite (at_store store c) info w).1.state.cache
unfolding composite
composite-IsVouched c H store info w had old =
    evaluate-IsVouched c H store
      (record { info = info; now = lookup_time w.state; later = store_time w.state })
      (record { cache = w.state.cache; events = w.events }) had old

decided-eq : (r r' : Result) → decided r ≡ decided r' → r ≡ r'
decided-eq r r' e = cc

abbrev pub Vouched : Config → (DataStore → QueryInfo → Type 0) → Backend → Type 0
Vouched c H b = IsVouched c H b.cache

-- A handler whose evaluator is the composite one.
module _ (c : Config) (h : Handler Backend) (wired : h.evaluate ≡ composite c) where
  -- What the handler took for allowed, the composite evaluator allows, in the same state.
  pub Approved-allowed :
      (I : Backend → Type 0) (info : QueryInfo) (a : Approved h I info)
      → (evaluate c
          (lookup_time a.before.state)
          (store_time a.before.state)
          info
          (record { cache = a.before.state.cache; events = a.before.events })).0.allowed
        ≡ true
  unfolding composite
  Approved-allowed I info a =
      let b = a.before.state in
      let s : State = record { cache = b.cache; events = a.before.events } in
      let e : decided (evaluate c (lookup_time b) (store_time b) info s).0 ≡ decided a.result =
        sym (
          ap (λ (f : QueryInfo → World Backend → Verdict × World Backend). (f info a.before).0)
            wired)
        ∙ ap (λ p. p.0) a.evaluated in
      ap (λ r. r.allowed) (decided-eq _ _ e) ∙ a.allowed

Asked-IsAllowed :
    (c : Config) (H : DataStore → QueryInfo → Type 0) (store : DataStore) (h : Handler Backend)
    → h.evaluate ≡ composite (at_store store c)
    → c.opa_fail_closed ≡ true
    → c.opa_audit_only ≡ false
    → (asked : Bytes × QueryInfo) → Asked h (Vouched c H) asked
    → IsAllowed c H store asked.1
Asked-IsAllowed c H store h wired closed enforced (text, info) q =
    evaluate-IsAllowed c H store closed enforced (lookup_time q.approved.before.state)
      (store_time q.approved.before.state) info _ q.approved.reached
      (Approved-allowed (at_store store c) h wired (Vouched c H) info q.approved)

-- A server started with `--opa-fail-closed` and without `--opa-audit-only` has an empty cache and has
-- answered any sequence of requests while the store was changed. If it then forwards a request on a
-- GraphQL path, the limiter, if there is one, had a token for its key, what it forwards was inspected, and
-- for each query in it the schema accepts the query and OPA allowed it under the store as it is or, with
-- caching on, one with the same cache key that this request or an earlier one
-- carried, under the store with which it came.
pub serve_main-IsAllowed :
    (metrics_page : Events → Response) (env : Environment) (f : Flags) (s : Server)
    (past : List Happening) (d : DataStore) (first live' : Live) (a : Arrival) (headers : Map Bytes)
    (r' : Request)
    → start env f ≡ ready s
    → f.opa_fail_closed ≡ true
    → f.opa_audit_only ≡ false
    → first.world.state.cache ≡ []
    → is_graphql_path a.request.path ≡ true
    → serve_main metrics_page
        (server_at (store_after past d) s)
        a
        (live_after metrics_page s past d first)
      ≡ (forwarded headers r', live')
    → WithinLimit a (live_after metrics_page s past d first).limiter
      × ((text : Bytes) × (i : Inspected
            (server_at (store_after past d) s).proxy.handler
            (Vouched s.config (WasAsked s (arrives a ∷ past) d))
            a.request
            text)
          × Sent a.request text headers r'
          × All
              (λ q. IsAllowed s.config (WasAsked s (arrives a ∷ past) d) (store_after past d) q.1)
              (queries
                (server_at (store_after past d) s).proxy.handler
                (Vouched s.config (WasAsked s (arrives a ∷ past) d))
                i))
serve_main-IsAllowed metrics_page env f s past d first live' a headers r' started closed enforced
      empty path e =
    let wired = start-IsWired env f s started in
    let H = WasAsked s (arrives a ∷ past) d in
    let now = store_after past d in
    let live = live_after metrics_page s past d first in
    let I = Vouched s.config H in
    let none_cached : I first.world.state = λ key d h. absurd (unfold lookup in ground arith) in
    let keeps : (store : DataStore) (info : QueryInfo) (w : World Backend)
        → H store info
        → I w.state
        → I (composite (at_store store s.config) info w).1.state =
      λ store info w had i. composite-IsVouched s.config H store info w had i in
    let vouched =
      live_after-Holds metrics_page s H I keeps past d first (λ store query h. inl h) none_cached in
    let h = (server_at now s).proxy.handler in
    let (within, served) =
      serve_main-forwarded metrics_page (server_at now s) a live live' headers r' e in
    let (text, seen, sent) =
      serve_http-Inspected h I a.request r' headers live.world live'.world
        (λ info w carried. keeps now info w (inr (refl, carried))) vouched path served in
    (
      within,
      (
        text,
        seen,
        sent,
        All-map _ (λ q. IsAllowed s.config H now q.1)
            (Asked-IsAllowed s.config H now h refl (wired.fail_closed ∙ closed)
              (wired.audit_only ∙ enforced))
            _ (queries-Asked h I seen),
      ),
    )
