-- ===== src/Server/Serve/Bounded.antt =====
-- The size of what a started server (main.go) forwards.
use gql_firewall.Base.{
  ℕ, ◌*◌, ◌^◌, ◌≤◌, ◌<◌, pos, Bytes, true, Map, length, ◌≡◌, ◌∙◌, sym, ap, subst, arith,
}
use gql_firewall.Metrics.{Events}
use gql_firewall.Proxy.Handler.{Handler, read_body, read_ok}
use gql_firewall.Proxy.Http.{Method, get, post, Body, broken, content, Request, Response, forwarded}
use gql_firewall.Proxy.Mediation.{serve_http-Inspected}
use gql_firewall.Proxy.Mediation.Evidence.{Inspected, single, batch, by_get}
use gql_firewall.Proxy.Text.{is_graphql_path}
use gql_firewall.Server.Serve.{Live, Arrival, serve_main}
use gql_firewall.Server.Serve.Routes.{serve_main-forwarded}
use gql_firewall.Server.Startup.{Flags, Environment, Server, ready, start, body_limit}
use gql_firewall.Server.Startup.Laws.Limits.{body_limit_exact}
use gql_firewall.Server.Startup.Laws.Wiring.{start-IsWired}

read_body-length-le :
    (limit : ℕ) (body : Body) (text : Bytes)
    → 0 < limit
    → read_body limit body ≡ read_ok text
    → length text ≤ limit
unfolding read_body
read_body-length-le limit broken text some_limit h = absurd (ground arith)
read_body-length-le limit (content bytes) text some_limit h = ground arith

post-ne-get : ¬ (Method.post ≡ get)
post-ne-get e = cc

Inspected-length-le :
    {S : Type 0} (h : Handler S) (I : S → Type 0) (r : Request) (text : Bytes)
    → Inspected h I r text
    → r.method ≡ post
    → 0 < h.max_body_bytes
    → length text ≤ h.max_body_bytes
Inspected-length-le h I r text (single request info m b d p a) posted limit =
    read_body-length-le h.max_body_bytes r.body text limit b
Inspected-length-le h I r text (batch requests m b d n items) posted limit =
    read_body-length-le h.max_body_bytes r.body text limit b
Inspected-length-le h I r text (by_get parsed info m p i t a) posted limit =
    absurd (post-ne-get (sym posted ∙ m))

-- A server started with `--max-body-mb` between 1 and 2 ^ 43 - 1 forwards no POST request on a GraphQL
-- path with a longer body than that number of times 2 ^ 20 bytes, whatever its state.
pub serve_main-length-le :
    (metrics_page : Events → Response) (env : Environment) (f : Flags) (s : Server) (mb : ℕ)
    (live live' : Live) (a : Arrival) (headers : Map Bytes) (r' : Request)
    → start env f ≡ ready s
    → f.max_body_mb ≡ pos mb
    → 0 < mb
    → mb < 2 ^ 43
    → is_graphql_path a.request.path ≡ true
    → a.request.method ≡ post
    → serve_main metrics_page s a live ≡ (forwarded headers r', live')
    → (text : Bytes) × (r'.body ≡ content text)
      × (r'.content_length ≡ length text)
      × (length text ≤ mb * 1048576)
serve_main-length-le metrics_page env f s mb live live' a headers r' started flag some_mb few path
      posted e =
    let limit : s.proxy.handler.max_body_bytes ≡ mb * 1048576 =
      (start-IsWired env f s started).body_limit ∙ ap body_limit flag ∙ body_limit_exact mb few in
    let (within, served) = serve_main-forwarded metrics_page s a live live' headers r' e in
    let (text, seen, sent) =
      serve_http-Inspected s.proxy.handler (λ b. Unit {0}) a.request r' headers live.world
        live'.world (λ info w carried i. tt) tt path served in
    (
      text,
      ap (λ r. r.body) sent.request,
      ap (λ r. r.content_length) sent.request,
      subst (λ n. length text ≤ n) limit
          (Inspected-length-le s.proxy.handler (λ b. Unit {0}) a.request text seen posted
            (subst (λ n. 0 < n) (sym limit) (omega arith))),
    )
