-- ===== src/Proxy/Answers/Served.antt =====
-- The answers that ServeHTTP (proxy.go) gives itself.
use gql_firewall.Base.{
  ◌&&◌, not, ◌==◌, on_branch, ℕ, Bytes, false, [], ◌∷◌, ◌++◌, some, codes, insert, lookup,
  lookup-insert, Map, bytes_equal, append_assoc, ◌≡◌, ◌≢◌, ◌⊎◌, inl, inr, refl, ap, ◌∙◌, arith,
}
use gql_firewall.Opa.Json.{Result}
use gql_firewall.Proxy.Answers.Reader.{read_object}
use gql_firewall.Proxy.Answers.Texts.{
  IsPrintable, in_quotes, escape, read_error_text, read_blocked_text, sanitize_reason-IsPrintable,
  sanitize_error-IsPrintable, read_empty_item, read_bad_item,
}
use gql_firewall.Proxy.Batch.{empty_item, bad_item}
use gql_firewall.Proxy.Handler.{
  World, Handler, Run, media_type_error, method_error, internal_error, fail_with, fail_text, block,
  blocked_response, forward,
}
use gql_firewall.Proxy.Http.{
  Method, get, post, Request, Response, get_value, Outcome, replied, forwarded, panicked,
  http_error,
}
use gql_firewall.Proxy.Rule.{IsKept, handle_text-Post, handle_graphql_get-Post}
use gql_firewall.Proxy.Serve.{handle_graphql, dispatch, recover_panic, serve_http}
use gql_firewall.Proxy.Text.{
  Context, sanitize_error, sanitize_reason, is_graphql_path, has_json_content_type,
}

-- The verb %q on printable ASCII.
abbrev pub QuotesText : {S : Type 0} → Handler S → Type 0
QuotesText h = (t : Bytes) → IsPrintable t → h.quote t ≡ in_quotes t

-- A 403 is an object with the error and a printable reason, any other answer one with the error alone;
-- and the answer must not be sniffed.
pub record IsJsonAnswer (r : Response) : Type 0 where
  pub text :
      ((r.status ≡ 403)
        × ((reason : Bytes) × IsPrintable reason
            × (read_object r.body
                ≡ some ((codes "error", codes "request blocked") ∷ (codes "reason", reason) ∷ []))))
      ⊎ ((r.status ≢ 403)
          × ((message : Bytes) × (read_object r.body ≡ some ((codes "error", message) ∷ []))))
  pub nosniff : get_value (codes "X-Content-Type-Options") r.headers ≡ codes "nosniff"

abbrev pub AnswersJson : Outcome → Type 0
AnswersJson (replied response) = IsJsonAnswer response
AnswersJson (forwarded headers r) = Unit
AnswersJson panicked = Unit

-- `http.Error` with an object in the message.
http_error-IsJsonAnswer :
    (headers : Map Bytes) (message : Bytes) (status : ℕ) (text : Bytes)
    → status ≢ 403
    → read_object (message ++ codes "\n") ≡ some ((codes "error", text) ∷ [])
    → IsJsonAnswer (http_error headers message status)
unfolding http_error get_value bytes_equal
http_error-IsJsonAnswer headers message status text differs reads =
    let name = codes "X-Content-Type-Options" in
    record {
      text = inr (differs, (text, reads));
      nosniff = rw (lookup-insert name name (codes "nosniff") _, get_value) refl;
    }

module _ {S : Type 0} (h : Handler S) (quotes : QuotesText h) where
  abbrev RunAnswers : Run S → Type 0
  RunAnswers run = AnswersJson run.0

  quote-append :
      (t tail : Bytes) → IsPrintable t → h.quote t ++ tail ≡ b'"' ∷ (escape t ++ b'"' ∷ tail)
  quote-append t tail p =
      ap (λ q. q ++ tail) (quotes t p)
      ∙ ap (λ s. b'"' ∷ s) (append_assoc (escape t) (b'"' ∷ []) tail)

  fail_with-RunAnswers :
      (context : Context) (status : ℕ) (kind : Bytes) (w : World S)
      → (status == 403) ≡ false
      → RunAnswers (fail_with h (sanitize_error context) status kind w)
  unfolding fail_with
  fail_with-RunAnswers context status kind w differs =
      let t = sanitize_error context in
      let printable = sanitize_error-IsPrintable context in
      let same : (codes "{\"error\": " ++ (h.quote t ++ codes "}")) ++ codes "\n"
          ≡ codes "{\"error\": \"" ++ (escape t ++ codes "\"}\n") =
        ap (λ s. codes "{\"error\": " ++ s)
          (append_assoc (h.quote t) (codes "}") (codes "\n")
            ∙ quote-append t (codes "}\n") printable) in
      http_error-IsJsonAnswer [] _ status t (λ e. ground arith)
        (ap read_object same ∙ read_error_text t printable)

  block-RunAnswers :
      (result : Result) (kind : Bytes) (w : World S) → RunAnswers (block h result kind w)
  unfolding block blocked_response get_value lookup insert bytes_equal
  block-RunAnswers result kind w =
      let t = sanitize_reason result.reason in
      let printable = sanitize_reason-IsPrintable result.reason in
      let same : codes "{\"error\": \"request blocked\", \"reason\": " ++ (h.quote t ++ codes "}")
          ≡ codes "{\"error\": \"request blocked\", \"reason\": \"" ++ (escape t ++ codes "\"}") =
        ap (λ s. codes "{\"error\": \"request blocked\", \"reason\": " ++ s)
          (quote-append t (codes "}") printable) in
      record {
        text = inl (refl, (t, printable, ap read_object same ∙ read_blocked_text t printable));
        nosniff = refl;
      }

  fail_text-RunAnswers :
      (message text : Bytes) (w : World S)
      → read_object (message ++ codes "\n") ≡ some ((codes "error", text) ∷ [])
      → RunAnswers (fail_text h message 400 w)
  unfolding fail_text
  fail_text-RunAnswers message text w reads =
      http_error-IsJsonAnswer [] message 400 text (λ e. ground arith) reads

  answers-IsKept : (r : Request) → IsKept h r (λ w. Unit {0}) RunAnswers
  unfolding forward
  answers-IsKept r = record {
    fails = λ context status kind w differs at. fail_with-RunAnswers context status kind w differs;
    empties = λ n w at. fail_text-RunAnswers (empty_item n) _ w (read_empty_item n);
    spoils = λ n w at. fail_text-RunAnswers (bad_item n) _ w (read_bad_item n);
    blocks = λ result kind w at. block-RunAnswers result kind w;
    forwards = λ text kind w at. tt;
    panics = λ w at. tt;
    enters = λ rule w at. tt;
    asks = λ info w carried at. tt;
  }

  dispatch-RunAnswers : (m : Method) (r : Request) (w : World S) → RunAnswers (dispatch h m r w)
  unfolding dispatch handle_graphql read_object
  dispatch-RunAnswers post r w =
      on_branch RunAnswers (has_json_content_type (get_value (codes "Content-Type") r.headers)) _ _
        (handle_text-Post h r _ RunAnswers (answers-IsKept r) _ w refl tt)
        (http_error-IsJsonAnswer [] media_type_error 415
          (codes "Content-Type must be application/json") (λ e. ground arith) refl)
  dispatch-RunAnswers get r w = handle_graphql_get-Post h r _ RunAnswers (answers-IsKept r) w tt
  dispatch-RunAnswers m r w = refused_method
    where
      refused_method :
          IsJsonAnswer (http_error (insert (codes "Allow") (codes "GET, POST") []) method_error 405)
      refused_method =
          http_error-IsJsonAnswer _ method_error 405
            (codes "method not allowed on GraphQL endpoint") (λ e. ground arith) refl

  recover_panic-RunAnswers : (run : Run S) → RunAnswers run → RunAnswers (recover_panic h run)
  unfolding recover_panic read_object
  recover_panic-RunAnswers (panicked, w) a = on_branch RunAnswers h.disable_panic_recovery _ _ tt (
      http_error-IsJsonAnswer [] internal_error 500 (codes "internal server error")
        (λ e. ground arith) refl)
  recover_panic-RunAnswers (replied response, w) a = a
  recover_panic-RunAnswers (forwarded headers r, w) a =
      on_branch RunAnswers (h.upstream_panics r && not h.disable_panic_recovery) _ _ tt tt

-- Whatever ServeHTTP answers itself, without handing the request to the upstream, a refusal by method, a recovered panic and a refused batch item
-- included, is one JSON object of strings with nothing behind it: with the error "request blocked" and a
-- reason of printable ASCII if the status is 403, whatever reason OPA gave, and with an error alone
-- otherwise; and it has the header X-Content-Type-Options: nosniff. It is assumed that %q writes printable
-- ASCII as strconv documents.
pub serve_http-AnswersJson :
    {S : Type 0} (h : Handler S) (r : Request) (w : World S)
    → QuotesText h
    → AnswersJson (serve_http h r w).0
unfolding serve_http
serve_http-AnswersJson h r w quotes = recover_panic-RunAnswers h quotes _ (
    on_branch (RunAnswers h quotes) (is_graphql_path r.path) _ _
      (dispatch-RunAnswers h quotes r.method r w) tt)
