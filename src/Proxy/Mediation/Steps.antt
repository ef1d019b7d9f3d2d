-- ===== src/Proxy/Mediation/Steps.antt =====
-- The last steps of every handler, and the handler of a single query (proxy.go).
use gql_firewall.Base.{
  ◌++◌, Bytes, true, Map, is_empty, codes, ◌≡◌, inl, inr, refl, Bool-cases, Option-cases, arith,
}
use gql_firewall.Metrics.{record_rule_eval}
use gql_firewall.Opa.Json.{Result}
use gql_firewall.Parser.Info.{QueryInfo}
use gql_firewall.Proxy.Carried.{Carried}
use gql_firewall.Proxy.Http.{post, Request, forwarded}
use gql_firewall.Proxy.Handler.{
  Verdict, decided, failed, panic, World, Handler, read_ok, read_body, Run, fail_with, block,
  forward, parse_query_with_timeout, with_variables, with_tenant, act, evaluate_and_forward,
}
use gql_firewall.Proxy.Serve.{inspect, handle_single}
use gql_firewall.Proxy.Mediation.Evidence.{Sent, Approved, Inspected, single}

module _ {S : Type 0} (h : Handler S) (I : S → Type 0) (r r' : Request)
    (keeps : (info : QueryInfo) (w : World S)
      → Carried h r info
      → I w.state
      → I (h.evaluate info w).1.state)
    (headers : Map Bytes) (v : World S) where
  abbrev pub Forwards : Run S → Type 0
  Forwards run = run ≡ (forwarded headers r', v)

  pub forward-Sent :
      (text kind : Bytes) (w : World S)
      → Forwards (forward h r text kind w)
      → Sent r text headers r'
  unfolding forward
  forward-Sent text kind w e = ground arith

  act-Forwards :
      (text kind : Bytes) (verdict : Verdict) (w : World S)
      → Forwards (act h r text kind verdict w)
      → ((result : Result) × (verdict ≡ decided result) × (result.allowed ≡ true))
        × Sent r text headers r'
  unfolding act block fail_with
  act-Forwards text kind (decided result) w e = elim (Bool-cases result.allowed) [
    | inl yes_ ↦ ((result, refl, yes_), forward-Sent text kind w (rw yes_ at e))
    | inr no_ ↦ absurd (ground arith)
  ]
  act-Forwards text kind failed w e = absurd (ground arith)
  act-Forwards text kind panic w e = absurd (ground arith)

  pub evaluate_and_forward-Forwards :
      (text : Bytes) (info : QueryInfo) (w : World S)
      → I w.state
      → Forwards (evaluate_and_forward h r text info w)
      → Approved h I (with_tenant r info) × Sent r text headers r'
  unfolding evaluate_and_forward
  evaluate_and_forward-Forwards text info w start e =
      let info' = with_tenant r info in
      let w' : World S = record w {
        events = record_rule_eval (codes "op_" ++ info'.operation_type) w.events;
      } in
      let answer : Verdict × World S = h.evaluate info' w' in
      let ((result, verdict, allowed), sent) =
        act-Forwards text info'.operation_type answer.0 answer.1 e in
      (
        record {
          before = w';
          reached = start;
          after = answer.1;
          result = result;
          evaluated = λ i. (verdict i, answer.1);
          allowed = allowed;
        },
        sent,
      )

  pub handle_single-Forwards :
      (text : Bytes) (w : World S)
      → I w.state
      → r.method ≡ post
      → read_body h.max_body_bytes r.body ≡ read_ok text
      → Forwards (handle_single h r text w)
      → Inspected h I r text × Sent r text headers r'
  unfolding handle_single inspect fail_with
  handle_single-Forwards text w start m b e = elim (Option-cases (h.decode_body text)) [
    | inl bad ↦ absurd (ground arith)
    | inr ((request, more), decoded) ↦ elim (Bool-cases more) [
      | inl extra ↦ absurd (ground arith)
      | inr no_more ↦ elim (Bool-cases (is_empty request.query)) [
        | inl blank ↦ absurd (ground arith)
        | inr filled ↦ elim (Option-cases (parse_query_with_timeout h request.query)) [
          | inl unparsed ↦ absurd (ground arith)
          | inr (info, parsed) ↦
              let (approved, sent) =
                evaluate_and_forward-Forwards text (with_variables request.variables info) w start
                  (rw (decoded, handle_single, no_more, filled, parsed, inspect) at e) in
              (single request info m b (rw no_more at decoded) parsed approved, sent)
        ]
      ]
    ]
  ]
