-- ===== src/Proxy/Mediation.antt =====
-- Complete mediation (proxy.go): what reaches the upstream on a GraphQL path was parsed and allowed.
pub mod Evidence
pub mod Queries
mod Steps
mod Items
use gql_firewall.Base.{
  ◌++◌, ℕ, suc, Bytes, true, false, List, [], ◌∷◌, some, Map, is_empty, length, codes, All, ◌≡◌,
  ◌∙◌, sym, ap, ◌&&◌, not, on_branch, ◌≢◌, ◌⊎◌, inl, inr, refl, Bool-cases, Option-cases, arith,
}
use gql_firewall.Metrics.{record_rule_eval}
use gql_firewall.Opa.Json.{Result}
use gql_firewall.Parser.Info.{QueryInfo}
use gql_firewall.Proxy.Text.{is_graphql_path, has_json_content_type, is_batch}
use gql_firewall.Proxy.Carried.{Carried}
use gql_firewall.Proxy.Http.{
  Method, get, post, content, Request, get_value, replied, forwarded, panicked,
}
use gql_firewall.Proxy.Handler.{
  GraphqlBody, Verdict, decided, failed, panic, World, Handler, ReadResult, read_ok, too_large,
  read_error, read_body, set_security_headers, Run, fail_with, fail_text, block, forward,
  parse_query_with_timeout, with_variables, with_tenant, act, evaluate_and_forward,
}
use gql_firewall.Proxy.Batch.{
  ItemResult, passed, stopped, first_type, judge_item, evaluate_item, batch_item, batch_from,
  handle_batch,
}
use gql_firewall.Proxy.Serve.{
  inspect, handle_single, handle_text, handle_graphql, get_body, handle_graphql_get, dispatch,
  recover_panic, serve_http,
}
use gql_firewall.Proxy.Mediation.Evidence.{
  Sent, Approved, ItemApproved, Inspected, single, batch, by_get, ItemResult-cases,
}
use gql_firewall.Proxy.Mediation.Steps.{
  Forwards, forward-Sent, evaluate_and_forward-Forwards, handle_single-Forwards,
}
use gql_firewall.Proxy.Mediation.Items.{handle_batch-Forwards}

module _ {S : Type 0} (h : Handler S) (I : S → Type 0) (r r' : Request)
    (keeps : (info : QueryInfo) (w : World S)
      → Carried h r info
      → I w.state
      → I (h.evaluate info w).1.state)
    (headers : Map Bytes) (v : World S) where
  handle_graphql-Forwards :
      (w : World S)
      → I w.state
      → r.method ≡ post
      → Forwards h I r r' keeps headers v (handle_graphql h r w)
      → (text : Bytes) × Inspected h I r text × Sent r text headers r'
  unfolding handle_graphql handle_text fail_with
  handle_graphql-Forwards w start m e = go (read_body h.max_body_bytes r.body) refl e
    where
      go :
          (result : ReadResult)
          → read_body h.max_body_bytes r.body ≡ result
          → Forwards h I r r' keeps headers v (handle_text h r result w)
          → (text : Bytes) × Inspected h I r text × Sent r text headers r'
      go too_large b f = absurd (ground arith)
      go read_error b f = absurd (ground arith)
      go (read_ok text) b f = elim (Bool-cases (is_batch text)) [
        | inl many ↦
            let (seen, sent) =
              handle_batch-Forwards h I r r' keeps headers v text w start m b (rw many at f) in
            (text, seen, sent)
        | inr one ↦
            let (seen, sent) =
              handle_single-Forwards h I r r' keeps headers v text w start m b (rw one at f) in
            (text, seen, sent)
      ]

  handle_graphql_get-Forwards :
      (w : World S)
      → I w.state
      → r.method ≡ get
      → Forwards h I r r' keeps headers v (handle_graphql_get h r w)
      → (text : Bytes) × Inspected h I r text × Sent r text headers r'
  unfolding handle_graphql_get fail_with
  handle_graphql_get-Forwards w start m e =
      let q = get_value (codes "query") r.url_query in
      elim (Bool-cases (is_empty q)) [
        | inl blank ↦ absurd (ground arith)
        | inr filled ↦ elim (Option-cases (parse_query_with_timeout h q)) [
          | inl unparsed ↦ absurd (ground arith)
          | inr (parsed, found) ↦
              let info = with_variables (get_value (codes "variables") r.url_query) parsed in
              let text = get_body h r q info in
              let (approved, sent) =
                evaluate_and_forward-Forwards h I r r' keeps headers v text info w start
                  (rw (filled, handle_graphql_get, found) at e) in
              (text, by_get parsed info m found refl refl approved, sent)
        ]
      ]

  dispatch-Forwards :
      (m : Method) (w : World S)
      → I w.state
      → r.method ≡ m
      → Forwards h I r r' keeps headers v (dispatch h m r w)
      → (text : Bytes) × Inspected h I r text × Sent r text headers r'
  unfolding dispatch
  dispatch-Forwards post w start m e =
      elim (Bool-cases (has_json_content_type (get_value (codes "Content-Type") r.headers))) [
        | inl json ↦ handle_graphql-Forwards w start m (rw json at e)
        | inr wrong ↦ absurd (ground arith)
      ]
  dispatch-Forwards get w start m e = handle_graphql_get-Forwards w start m e
  dispatch-Forwards _ w start m e = absurd (ground arith)

module _ {S : Type 0} (h : Handler S) where
  forwarded_stays :
      (headers : Map Bytes) (r : Request) (w : World S)
      → (recover_panic h (forwarded headers r, w)).0 ≡ forwarded headers r
  unfolding recover_panic
  forwarded_stays headers r w =
      on_branch (λ (run : Run S). run.0 ≡ forwarded headers r)
        (h.upstream_panics r && not h.disable_panic_recovery) _ _ refl refl

  recover_panic-forwarded :
      (run : Run S) (headers : Map Bytes) (r : Request) (w : World S)
      → recover_panic h run ≡ (forwarded headers r, w)
      → (v : World S) × (run ≡ (forwarded headers r, v))
  unfolding recover_panic
  recover_panic-forwarded (replied response, v) headers r w e = (w, e)
  recover_panic-forwarded (forwarded headers' r', v) headers r w e =
      let ends : forwarded headers' r' ≡ forwarded headers r =
        sym (forwarded_stays headers' r' v) ∙ ap (λ p. p.0) e in
      (v, ap (λ o. (o, v)) ends)
  recover_panic-forwarded (panicked, v) headers r w e = absurd (ground arith)

-- On a GraphQL path, whatever is forwarded to the upstream was inspected: the forwarded body is the one
-- that was read and decoded (or built from the query of a GET request), it is a single query or a batch
-- that is not empty, every query in it was parsed in time, the evaluator was asked about each with its
-- variables, and a single query with its tenant, and allowed each; the forwarded request differs in its
-- body and length only, and the security headers are set. Whatever the evaluator keeps true of its state when
-- it is asked about a query that the request carries, and holds at the start, held each time that it was
-- asked.
pub serve_http-Inspected :
    {S : Type 0} (h : Handler S) (I : S → Type 0) (r r' : Request) (headers : Map Bytes)
    (w w' : World S)
    → ((info : QueryInfo) (v : World S)
        → Carried h r info
        → I v.state
        → I (h.evaluate info v).1.state)
    → I w.state
    → is_graphql_path r.path ≡ true
    → serve_http h r w ≡ (forwarded headers r', w')
    → (text : Bytes) × Inspected h I r text × Sent r text headers r'
unfolding serve_http
serve_http-Inspected h I r r' headers w w' keeps start path e =
    let (v, run) =
      recover_panic-forwarded h (dispatch h r.method r w) headers r' w' (rw path at e) in
    dispatch-Forwards h I r r' keeps headers v r.method w start refl run
