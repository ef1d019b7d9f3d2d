-- ===== src/Proxy/Mediation/Items.antt =====
-- The handler of a batch (proxy.go), item by item.
use gql_firewall.Base.{
  ℕ, suc, Bytes, true, List, [], ◌∷◌, some, Map, is_empty, codes, All, ◌≡◌, inl, inr, In, refl,
  subst, Bool-cases, Option-cases, arith,
}
use gql_firewall.Opa.Json.{Result}
use gql_firewall.Parser.Info.{QueryInfo}
use gql_firewall.Proxy.Carried.{Carried, in_batch}
use gql_firewall.Proxy.Http.{post, Request}
use gql_firewall.Proxy.Handler.{
  GraphqlBody, Verdict, decided, failed, panic, World, Handler, read_ok, read_body, Run, fail_with,
  fail_text, block, parse_query_with_timeout, with_variables,
}
use gql_firewall.Proxy.Batch.{
  passed, stopped, first_type, judge_item, evaluate_item, batch_item, batch_from, handle_batch,
}
use gql_firewall.Proxy.Mediation.Evidence.{Sent, ItemApproved, Inspected, batch, ItemResult-cases}
use gql_firewall.Proxy.Mediation.Steps.{Forwards, forward-Sent}

module _ {S : Type 0} (h : Handler S) (I : S → Type 0) (r r' : Request)
    (keeps : (info : QueryInfo) (w : World S)
      → Carried h r info
      → I w.state
      → I (h.evaluate info w).1.state)
    (headers : Map Bytes) (v : World S) where
  judge_item-passed :
      (kind kind' : Bytes) (verdict : Verdict) (w w' : World S)
      → judge_item h kind verdict w ≡ passed kind' w'
      → (result : Result) × (verdict ≡ decided result) × (result.allowed ≡ true) × (w ≡ w')
  unfolding judge_item
  judge_item-passed kind kind' (decided result) w w' e = (result, refl, ground arith, ground arith)
  judge_item-passed kind kind' failed w w' e = absurd (ground arith)
  judge_item-passed kind kind' panic w w' e = absurd (ground arith)

  judge_item-stopped :
      (kind : Bytes) (verdict : Verdict) (w : World S) (run : Run S)
      → judge_item h kind verdict w ≡ stopped run
      → ¬ Forwards h I r r' keeps headers v run
  unfolding judge_item block fail_with
  judge_item-stopped kind (decided result) w run e f = ground arith
  judge_item-stopped kind failed w run e f = ground arith
  judge_item-stopped kind panic w run e f = ground arith

  batch_item-passed :
      (i : ℕ) (request : GraphqlBody) (kind : Bytes) (w w' : World S)
      → ((parsed : QueryInfo)
          → parse_query_with_timeout h request.query ≡ some parsed
          → Carried h r (with_variables request.variables parsed))
      → I w.state
      → batch_item h i request w ≡ passed kind w'
      → ItemApproved h I request × I w'.state
  unfolding batch_item evaluate_item
  batch_item-passed i request kind w w' carried start e =
      elim (Bool-cases (is_empty request.query)) [
        | inl blank ↦ absurd (ground arith)
        | inr filled ↦ elim (Option-cases (parse_query_with_timeout h request.query)) [
          | inl unparsed ↦ absurd (ground arith)
          | inr (parsed, found) ↦
              let info = with_variables request.variables parsed in
              let answer : Verdict × World S = h.evaluate info w in
              let (result, verdict, allowed, after) =
                judge_item-passed info.operation_type kind answer.0 answer.1 w'
                  (rw (filled, batch_item, found, evaluate_item) at e) in
              (
                record {
                  info = parsed;
                  parsed = found;
                  approved = record {
                    before = w;
                    reached = start;
                    after = answer.1;
                    result = result;
                    evaluated = λ i. (verdict i, answer.1);
                    allowed = allowed;
                  };
                },
                subst (λ t. I t.state) after (keeps info w (carried parsed found) start),
              )
        ]
      ]

  batch_item-stopped :
      (i : ℕ) (request : GraphqlBody) (w : World S) (run : Run S)
      → batch_item h i request w ≡ stopped run
      → ¬ Forwards h I r r' keeps headers v run
  unfolding batch_item evaluate_item fail_text
  batch_item-stopped i request w run e f = elim (Bool-cases (is_empty request.query)) [
    | inl blank ↦ ground arith
    | inr filled ↦ elim (Option-cases (parse_query_with_timeout h request.query)) [
      | inl unparsed ↦ ground arith
      | inr (parsed, found) ↦
          judge_item-stopped _ _ _ run (rw (filled, batch_item, found, evaluate_item) at e) f
    ]
  ]

  batch_from-Forwards :
      (text : Bytes) (i : ℕ) (first : Bytes) (requests : List GraphqlBody) (w : World S)
      → ((request : GraphqlBody) (parsed : QueryInfo)
          → In request requests
          → parse_query_with_timeout h request.query ≡ some parsed
          → Carried h r (with_variables request.variables parsed))
      → I w.state
      → Forwards h I r r' keeps headers v (batch_from h r text i first requests w)
      → All (ItemApproved h I) requests × Sent r text headers r'
  unfolding batch_from
  batch_from-Forwards text i first [] w carried start e =
      (tt, forward-Sent h I r r' keeps headers v text first w e)
  batch_from-Forwards text i first (request ∷ requests) w carried start e =
      elim (ItemResult-cases (batch_item h i request w)) [
        | inr (run, stop) ↦
            absurd (batch_item-stopped i request w run stop (rw (stop, batch_from) at e))
        | inl (kind, w', pass) ↦
            let (item, next) =
              batch_item-passed i request kind w w' (λ parsed. carried request parsed (inl refl))
                start pass in
            let (later, sent) =
              batch_from-Forwards text (suc i) (first_type i first kind) requests w'
                (λ other parsed listed. carried other parsed (inr listed)) next
                (rw (pass, batch_from) at e) in
            ((item, later), sent)
      ]

  pub handle_batch-Forwards :
      (text : Bytes) (w : World S)
      → I w.state
      → r.method ≡ post
      → read_body h.max_body_bytes r.body ≡ read_ok text
      → Forwards h I r r' keeps headers v (handle_batch h r text w)
      → Inspected h I r text × Sent r text headers r'
  unfolding handle_batch fail_with
  handle_batch-Forwards text w start m b e = elim (Option-cases (h.decode_batch text)) [
    | inl bad ↦ absurd (ground arith)
    | inr (requests, decoded) ↦ go requests decoded
  ]
    where
      go :
          (requests : List GraphqlBody)
          → h.decode_batch text ≡ some requests
          → Inspected h I r text × Sent r text headers r'
      go [] decoded = absurd (ground arith)
      go (request ∷ requests) decoded =
          let (items, sent) =
            batch_from-Forwards text 0 (codes "unknown") (request ∷ requests) w
              (λ item parsed listed e.
                in_batch text (request ∷ requests) item parsed b decoded listed e)
              start (rw (decoded, handle_batch) at e) in
          (batch (request ∷ requests) m b decoded (λ q. ground arith) items, sent)
