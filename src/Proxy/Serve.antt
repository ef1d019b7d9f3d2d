-- ===== src/Proxy/Serve.antt =====
-- handleGraphQL, handleGraphQLGet, recoverPanic and ServeHTTP (proxy.go).
use gql_firewall.Base.{
  Bytes, [], Option, none, some, insert, is_empty, if◌then◌else◌, codes, ◌&&◌, not,
}
use gql_firewall.Metrics.{record_request}
use gql_firewall.Parser.Info.{QueryInfo}
use gql_firewall.Proxy.Text.{sanitize_error, body, is_graphql_path, has_json_content_type, is_batch}
use gql_firewall.Proxy.Http.{
  Method, get, post, Request, get_value, replied, forwarded, panicked, http_error,
}
use gql_firewall.Proxy.Handler.{
  World, Handler, ReadResult, read_ok, too_large, read_error, read_body, media_type_error,
  method_error, internal_error, Run, fail_with, parse_query_with_timeout, with_variables,
  evaluate_and_forward, bad_query, bad_json,
}
use gql_firewall.Proxy.Batch.{handle_batch}

module _ {S : Type 0} (h : Handler S) where
  -- A query that was read, from its parse on.
  unfoldable pub inspect : Request → Bytes → Bytes → Option QueryInfo → World S → Run S
  inspect r text variables none w = bad_query h w
  inspect r text variables (some info) w =
      evaluate_and_forward h r text (with_variables variables info) w

  unfoldable pub handle_single : Request → Bytes → World S → Run S
  handle_single r text w = elim (h.decode_body text) [
    | none ↦ bad_json h w
    | some (request, more) ↦
        if more
        then bad_json h w
        else if is_empty request.query
        then bad_query h w
        else inspect r text request.variables (parse_query_with_timeout h request.query) w
  ]

  -- `handleGraphQL`, from the result of the read on.
  unfoldable pub handle_text : Request → ReadResult → World S → Run S
  handle_text r too_large w = fail_with h (sanitize_error body) 413 (codes "unknown") w
  handle_text r read_error w = fail_with h (sanitize_error body) 400 (codes "unknown") w
  handle_text r (read_ok text) w =
      if is_batch text then handle_batch h r text w else handle_single r text w

  unfoldable pub handle_graphql : Request → World S → Run S
  handle_graphql r w = handle_text r (read_body h.max_body_bytes r.body) w

  -- The body that a GET request is given for the upstream.
  unfoldable pub get_body : Request → Bytes → QueryInfo → Bytes
  get_body r text info = h.marshal_body (record {
    query = text;
    operation_name = get_value (codes "operationName") r.url_query;
    variables = info.request_variables;
    extensions = [];
  })

  unfoldable pub handle_graphql_get : Request → World S → Run S
  handle_graphql_get r w =
      let text = get_value (codes "query") r.url_query in
      if is_empty text then bad_query h w else elim (parse_query_with_timeout h text) [
        | none ↦ bad_query h w
        | some parsed ↦
            let info = with_variables (get_value (codes "variables") r.url_query) parsed in
            evaluate_and_forward h r (get_body r text info) info w
      ]

  -- `switch r.Method`, with its default case last.
  unfoldable pub dispatch : Method → Request → World S → Run S
  dispatch post r w =
      if has_json_content_type (get_value (codes "Content-Type") r.headers)
      then handle_graphql r w
      else (replied (http_error [] media_type_error 415), w)
  dispatch get r w = handle_graphql_get r w
  dispatch m r w =
      (replied (http_error (insert (codes "Allow") (codes "GET, POST") []) method_error 405), w)

  -- `recoverPanic`, if it is deferred. A panic of the upstream comes after the request has gone there.
  unfoldable pub recover_panic : Run S → Run S
  recover_panic (panicked, w) = if h.disable_panic_recovery then (panicked, w) else (
    replied (http_error [] internal_error 500),
    record w { events = record_request (codes "error") (codes "unknown") w.events },
  )
  recover_panic (replied response, w) = (replied response, w)
  recover_panic (forwarded headers r, w) =
      if h.upstream_panics r && not h.disable_panic_recovery
      then (
        forwarded headers r,
        record w { events = record_request (codes "error") (codes "unknown") w.events },
      )
      else (forwarded headers r, w)

  unfoldable pub serve_http : Request → World S → Run S
  serve_http r w =
      recover_panic (if is_graphql_path r.path then dispatch r.method r w else (forwarded [] r, w))
