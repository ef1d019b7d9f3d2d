-- ===== src/Proxy/Carried.antt =====
-- The queries that a request carries, in the three ways in which proxy.go reads them, as the evaluator is
-- asked about them.
use gql_firewall.Base.{Bytes, Bool, List, some, codes, In, ◌≡◌}
use gql_firewall.Parser.Info.{QueryInfo}
use gql_firewall.Proxy.Handler.{
  GraphqlBody, Handler, read_ok, read_body, parse_query_with_timeout, with_variables, with_tenant,
}
use gql_firewall.Proxy.Http.{Request, get_value}

-- A query of the body, an item of a batch, or a query of the URL, that was parsed.
pub data Carried {S : Type 0} (h : Handler S) (r : Request) : QueryInfo → Type 0 where
  alone :
      (text : Bytes) (request : GraphqlBody) (more : Bool) (parsed : QueryInfo)
      → read_body h.max_body_bytes r.body ≡ read_ok text
      → h.decode_body text ≡ some (request, more)
      → parse_query_with_timeout h request.query ≡ some parsed
      → Carried h r (with_tenant r (with_variables request.variables parsed))
  in_batch :
      (text : Bytes) (requests : List GraphqlBody) (request : GraphqlBody) (parsed : QueryInfo)
      → read_body h.max_body_bytes r.body ≡ read_ok text
      → h.decode_batch text ≡ some requests
      → In request requests
      → parse_query_with_timeout h request.query ≡ some parsed
      → Carried h r (with_variables request.variables parsed)
  in_url :
      (parsed : QueryInfo)
      → parse_query_with_timeout h (get_value (codes "query") r.url_query) ≡ some parsed
      → Carried h r
          (with_tenant r (with_variables (get_value (codes "variables") r.url_query) parsed))
