-- ===== src/Proxy/Mediation/Evidence.antt =====
-- What it means that a body was inspected (proxy.go) before it goes upstream.
use gql_firewall.Base.{
  Bytes, true, false, List, [], some, Map, length, codes, All, ◌≡◌, ◌≢◌, ◌⊎◌, inl, inr, refl,
}
use gql_firewall.Opa.Json.{Result}
use gql_firewall.Parser.Info.{QueryInfo}
use gql_firewall.Proxy.Http.{get, post, content, Request, get_value}
use gql_firewall.Proxy.Handler.{
  GraphqlBody, decided, World, Handler, read_ok, read_body, set_security_headers, Run,
  parse_query_with_timeout, with_variables, with_tenant,
}
use gql_firewall.Proxy.Batch.{ItemResult, passed, stopped}
use gql_firewall.Proxy.Serve.{get_body}

-- What goes upstream: the request with `text` for its body, and the security headers for the answer.
pub record Sent (r : Request) (text : Bytes) (headers : Map Bytes) (r' : Request) : Type 0 where
  pub headers_set : headers ≡ set_security_headers []
  pub request : r' ≡ record r { body = content text; content_length = length text }

pub ItemResult-cases :
    {S : Type 0} (item : ItemResult S)
    → ((kind : Bytes) × (w : World S) × (item ≡ passed kind w))
      ⊎ ((run : Run S) × (item ≡ stopped run))
ItemResult-cases (passed kind w) = inl (kind, w, refl)
ItemResult-cases (stopped run) = inr (run, refl)

-- `I` is an invariant of the evaluator's state.
module _ {S : Type 0} (h : Handler S) (I : S → Type 0) where
  -- The evaluator was asked about the query, in a state that meets the invariant, and allowed it.
  pub record Approved (info : QueryInfo) : Type 0 where
    pub before : World S
    pub reached : I before.state
    pub after : World S
    pub result : Result
    pub evaluated : h.evaluate info before ≡ (decided result, after)
    pub allowed : result.allowed ≡ true

  pub record ItemApproved (request : GraphqlBody) : Type 0 where
    pub info : QueryInfo
    pub parsed : parse_query_with_timeout h request.query ≡ some info
    pub approved : Approved (with_variables request.variables info)

  -- The body text was inspected, in one of the three ways in which a request can come.
  pub data Inspected (r : Request) (text : Bytes) : Type 0 where
    single :
        (request : GraphqlBody) (info : QueryInfo)
        → r.method ≡ post
        → read_body h.max_body_bytes r.body ≡ read_ok text
        → h.decode_body text ≡ some (request, false)
        → parse_query_with_timeout h request.query ≡ some info
        → Approved (with_tenant r (with_variables request.variables info))
        → Inspected r text
    batch :
        (requests : List GraphqlBody)
        → r.method ≡ post
        → read_body h.max_body_bytes r.body ≡ read_ok text
        → h.decode_batch text ≡ some requests
        → requests ≢ []
        → All ItemApproved requests
        → Inspected r text
    by_get :
        (parsed info : QueryInfo)
        → r.method ≡ get
        → parse_query_with_timeout h (get_value (codes "query") r.url_query) ≡ some parsed
        → info ≡ with_variables (get_value (codes "variables") r.url_query) parsed
        → text ≡ get_body h r (get_value (codes "query") r.url_query) info
        → Approved (with_tenant r info)
        → Inspected r text
