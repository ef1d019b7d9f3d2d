-- ===== src/Proxy/Handler.antt =====
-- Handler of proxy.go: ServeHTTP and the handlers that it calls.
use gql_firewall.Base.{
  ℕ, Bytes, Bool, ◌&&◌, List, [], ◌++◌, Option, none, some, Map, insert, is_empty, length, ltb,
  if◌then◌else◌, codes,
}
use gql_firewall.Metrics.{Events, record_request, record_block, record_rule_eval}
use gql_firewall.Opa.Json.{Result}
use gql_firewall.Parser.Ast.{Library}
use gql_firewall.Parser.Info.{QueryInfo}
use gql_firewall.Parser.Analysis.{ok, err, parse_graphql}
use gql_firewall.Proxy.Text.{sanitize_error, json, query, eval, sanitize_reason}
use gql_firewall.Proxy.Tenant.{extract_tenant_id}
use gql_firewall.Proxy.Http.{
  content, broken, Body, Request, Response, get_value, Outcome, replied, forwarded, panicked,
  http_error,
}

pub record GraphqlBody : Type 0 where
  pub query : Bytes
  pub operation_name : Bytes
  pub variables : Bytes
  pub extensions : Bytes

-- What an Evaluator gives back; `panic` is a panic below it.
pub data Verdict : Type 0 where
  decided : Result → Verdict
  failed : Verdict
  panic : Verdict

-- The state of the evaluator and the recorded metrics.
pub record World (S : Type 0) : Type 0 where
  pub state : S
  pub events : Events

-- A Handler with what it depends on. `decode_body` is json.Decoder.Decode of one object with unknown
-- fields disallowed, and whether the decoder has more; `decode_batch` is json.Unmarshal of an array;
-- `quote` is the verb %q; `timed_out` tells for which queries the parse loses against the timer, which the
-- model lets depend on the text alone; `upstream_panics` tells in which requests the reverse proxy panics,
-- as it does with http.ErrAbortHandler when the copy of the answer's body fails.
pub record Handler (S : Type 0) : Type 0 where
  pub library : Library
  pub timed_out : Bytes → Bool
  pub evaluate : QueryInfo → World S → Verdict × World S
  pub decode_body : Bytes → Option (GraphqlBody × Bool)
  pub decode_batch : Bytes → Option (List GraphqlBody)
  pub marshal_body : GraphqlBody → Bytes
  pub quote : Bytes → Bytes
  pub max_body_bytes : ℕ
  pub disable_panic_recovery : Bool
  pub upstream_panics : Request → Bool

-- `h.MaxBodyBytes > 0` with http.MaxBytesReader and io.ReadAll: the bytes, too many, or an error. A
-- negative limit is like 0.
pub data ReadResult : Type 0 where
  read_ok : Bytes → ReadResult
  too_large : ReadResult
  read_error : ReadResult

unfoldable pub read_body : ℕ → Body → ReadResult
read_body limit broken = read_error
read_body limit (content s) = if ltb 0 limit && ltb limit (length s) then too_large else read_ok s

abbrev pub set_security_headers : Map Bytes → Map Bytes
set_security_headers headers =
    insert (codes "X-Frame-Options") (codes "DENY")
      (insert (codes "X-Content-Type-Options") (codes "nosniff") headers)

abbrev pub media_type_error : Bytes
media_type_error = codes "{\"error\": \"Content-Type must be application/json\"}"

abbrev pub method_error : Bytes
method_error = codes "{\"error\": \"method not allowed on GraphQL endpoint\"}"

abbrev pub internal_error : Bytes
internal_error = codes "{\"error\": \"internal server error\"}"

abbrev pub quoted : Bytes
quoted = codes "\""

-- A handler's run: how it ends, and the world after it.
abbrev pub Run : Type 0 → Type 0
Run S = Outcome × World S

-- `if len(variables) > 0 { queryInfo.RequestVariables = variables }`
unfoldable pub with_variables : Bytes → QueryInfo → QueryInfo
with_variables variables info =
    if is_empty variables then info else record info { request_variables = variables }

-- `if apiKey := r.Header.Get("X-API-Key"); apiKey != "" { queryInfo.TenantID = ... }`
unfoldable pub with_tenant : Request → QueryInfo → QueryInfo
with_tenant r info =
    let key = get_value (codes "X-API-Key") r.headers in
    if is_empty key then info else record info { tenant_id = extract_tenant_id key }

module _ {S : Type 0} (h : Handler S) where
  -- `http.Error(w, fmt.Sprintf("{\"error\": %q}", message), status)` and
  -- `metrics.RecordRequest("error", operationType, ...)`.
  unfoldable pub fail_with : Bytes → ℕ → Bytes → World S → Run S
  fail_with message status operation_type w = (
    replied (http_error [] (codes "{\"error\": " ++ (h.quote message ++ codes "}")) status),
    record w { events = record_request (codes "error") operation_type w.events },
  )

  -- The same with a text of its own.
  unfoldable pub fail_text : Bytes → ℕ → World S → Run S
  fail_text message status w = (
    replied (http_error [] message status),
    record w { events = record_request (codes "error") (codes "unknown") w.events },
  )

  unfoldable pub blocked_response : Bytes → Response
  blocked_response reason = record {
    status = 403;
    headers = set_security_headers (insert (codes "Content-Type") (codes "application/json") []);
    body =
        codes "{\"error\": \"request blocked\", \"reason\": "
        ++ (h.quote (sanitize_reason reason) ++ codes "}");
  }

  -- The answer to a denial, with its two metrics.
  unfoldable pub block : Result → Bytes → World S → Run S
  block result operation_type w = (
    replied (blocked_response result.reason),
    record w {
      events =
          record_request (codes "blocked") operation_type (record_block result.reason w.events);
    },
  )

  -- The request goes on with the body that was inspected.
  unfoldable pub forward : Request → Bytes → Bytes → World S → Run S
  forward r text operation_type w = (
    forwarded (set_security_headers [])
        (record r { body = content text; content_length = length text }),
    record w { events = record_request (codes "allowed") operation_type w.events },
  )

  -- `parseQueryWithTimeout`; an error is `none`.
  unfoldable pub parse_query_with_timeout : Bytes → Option QueryInfo
  parse_query_with_timeout text =
      if h.timed_out text
      then none
      else elim (parse_graphql h.library text) [ ok info ↦ some info | err e ↦ none ]

  -- What follows the evaluation of a single query.
  unfoldable pub act : Request → Bytes → Bytes → Verdict → World S → Run S
  act r text operation_type (decided result) w =
      if result.allowed then forward r text operation_type w else block result operation_type w
  act r text operation_type failed w = fail_with (sanitize_error eval) 500 operation_type w
  act r text operation_type panic w = (panicked, w)

  unfoldable pub evaluate_and_forward : Request → Bytes → QueryInfo → World S → Run S
  evaluate_and_forward r text info w =
      let info' = with_tenant r info in
      let w' = record w {
        events = record_rule_eval (codes "op_" ++ info'.operation_type) w.events;
      } in
      let (verdict, w'') = h.evaluate info' w' in act r text info'.operation_type verdict w''

  abbrev pub bad_query : World S → Run S
  bad_query w = fail_with (sanitize_error query) 400 (codes "unknown") w

  abbrev pub bad_json : World S → Run S
  bad_json w = fail_with (sanitize_error json) 400 (codes "unknown") w
