-- ===== src/Tests/Proxy.antt =====
-- The handler on small requests: a query that is forwarded, one that is blocked, and API keys.
use gql_firewall.Base.{
  Bytes, true, false, [], ◌∷◌, ◌++◌, none, some, codes, ◌≡◌, refl, lookup, insert, arith,
}
use gql_firewall.Parser.Info.{QueryInfo}
use gql_firewall.Proxy.Text.{
  sanitize_error, sanitize_reason, is_graphql_path, has_json_content_type, is_batch,
}
use gql_firewall.Proxy.Tenant.{has_leading_content, extract_tenant_id}
use gql_firewall.Proxy.Tenant.Laws
use gql_firewall.Proxy.Answers.Reader.{read_object}
use gql_firewall.Proxy.Answers.Texts.{in_quotes, escape}
use gql_firewall.Proxy.Answers.Served
use gql_firewall.Proxy.Answers.Served.{AnswersJson}
use gql_firewall.Proxy.Http.{
  post, content, Request, replied, forwarded, panicked, get_value, http_error,
}
use gql_firewall.Proxy.Handler.{
  GraphqlBody, Verdict, decided, World, Handler, read_body, set_security_headers, fail_with, block,
  forward, parse_query_with_timeout, with_variables, with_tenant, act, evaluate_and_forward,
  blocked_response,
}
use gql_firewall.Proxy.Serve.{
  inspect, handle_single, handle_text, handle_graphql, dispatch, recover_panic, serve_http,
}
use gql_firewall.Proxy.Mediation
use gql_firewall.Proxy.Mediation.Evidence.{Inspected, Sent}
use gql_firewall.Tests.Samples.{sample_library, sample_query}
use gql_firewall.Tests.Parser.{program}

unfoldable pub handling : Unit {0}
unfolding program lookup insert is_graphql_path has_json_content_type is_batch extract_tenant_id
    get_value http_error read_body fail_with block forward parse_query_with_timeout with_variables
    with_tenant act evaluate_and_forward inspect handle_single handle_text handle_graphql dispatch
    recover_panic serve_http blocked_response sanitize_error
handling = tt

abbrev sample_body : GraphqlBody
sample_body = record { query = sample_query; operation_name = []; variables = []; extensions = [] }

abbrev pub judging : {S : Type 0} → (QueryInfo → World S → Verdict × World S) → Handler S
judging evaluate = record {
  library = sample_library;
  timed_out = λ q. false;
  evaluate = evaluate;
  decode_body = λ s. some (sample_body, false);
  decode_batch = λ s. none;
  marshal_body = λ b. b.query;
  quote = in_quotes;
  max_body_bytes = 100;
  disable_panic_recovery = false;
  upstream_panics = λ r. false;
}

abbrev allowing : Handler (Unit {0})
allowing = judging (λ info w. (decided (record { allowed = true; reason = [] }), w))

abbrev blocking : Handler (Unit {0})
blocking = judging (λ info w. (decided (record { allowed = false; reason = codes "no" }), w))

abbrev pub sample_request : Request
sample_request = record {
  method = post;
  path = codes "/api/GraphQL";
  headers = (codes "Content-Type", codes "application/json; charset=utf-8") ∷ [];
  url_query = [];
  body = content (codes "{}");
  content_length = 2;
  remote_addr = codes "10.0.0.1:80";
  host = codes "firewall.local";
}

abbrev start : World (Unit {0})
start = record { state = tt; events = [] }

abbrev pub sent_request : Request
sent_request = record sample_request { body = content (codes "{}"); content_length = 2 }

allowed_is_forwarded :
    (serve_http allowing sample_request start).0 ≡ forwarded (set_security_headers []) sent_request
unfolding handling
allowed_is_forwarded = refl

blocked_is_answered :
    (serve_http blocking sample_request start).0 ≡ replied (blocked_response blocking (codes "no"))
unfolding handling
blocked_is_answered = refl

serve_http-Inspected_example :
    (text : Bytes) × Inspected allowing (λ s. Unit {0}) sample_request text
    × Sent sample_request text (set_security_headers []) sent_request
unfolding handling
serve_http-Inspected_example =
    Mediation.serve_http-Inspected allowing (λ s. Unit {0}) sample_request sent_request
      (set_security_headers []) start (serve_http allowing sample_request start).1
      (λ info v carried t. tt) tt refl refl

-- A reason with quotation marks and an end of line, which it loses.
abbrev injecting : Handler (Unit {0})
injecting = judging (λ info w. (decided (record { allowed = false; reason = codes "a\"\nb\\" }), w))

injection_is_read :
    (elim (serve_http injecting sample_request start).0 [
      | replied response ↦ read_object response.body
      | forwarded headers r ↦ none
      | panicked ↦ none
    ])
    ≡ some ((codes "error", codes "request blocked") ∷ (codes "reason", codes "a\"b\\") ∷ [])
unfolding handling read_object sanitize_reason escape
injection_is_read = refl

serve_http-AnswersJson_example : AnswersJson (serve_http injecting sample_request start).0
serve_http-AnswersJson_example =
    Served.serve_http-AnswersJson injecting sample_request start (λ t p. refl)

extract_tenant_id-joined_example :
    extract_tenant_id (codes "acme_corp" ++ b'_' ∷ codes "k3") ≡ codes "acme_corp"
unfolding has_leading_content
extract_tenant_id-joined_example =
    Laws.extract_tenant_id-joined (codes "acme_corp") (codes "k3") refl (omega arith)
      (λ e. ground arith)
