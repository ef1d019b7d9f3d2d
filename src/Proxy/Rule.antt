-- ===== src/Proxy/Rule.antt =====
-- One induction over the handlers of proxy.go for all that holds of how a run ends: what each way to end
-- a run gives, and the evaluator keeps in between, holds of the handlers.
use gql_firewall.Base.{
  on_branch, ◌==◌, ℕ, suc, Bytes, false, List, [], ◌∷◌, ◌++◌, Option, none, some, is_empty, codes,
  ◌≡◌, refl, inl, inr, In, Bool-cases, Option-cases,
}
use gql_firewall.Metrics.{record_rule_eval}
use gql_firewall.Opa.Json.{Result}
use gql_firewall.Parser.Info.{QueryInfo}
use gql_firewall.Proxy.Batch.{
  ItemResult, passed, stopped, first_type, judge_item, evaluate_item, batch_item, batch_from,
  handle_batch, empty_item, bad_item,
}
use gql_firewall.Proxy.Handler.{
  GraphqlBody, Verdict, decided, failed, panic, World, Handler, Run, ReadResult, read_ok, too_large,
  read_body, read_error, fail_with, fail_text, block, forward, act, evaluate_and_forward, bad_query,
  bad_json, parse_query_with_timeout, with_variables, with_tenant,
}
use gql_firewall.Proxy.Carried.{Carried, alone, in_batch, in_url}
use gql_firewall.Proxy.Http.{Request, get_value, panicked}
use gql_firewall.Proxy.Serve.{inspect, handle_single, handle_text, handle_graphql_get}
use gql_firewall.Proxy.Text.{Context, sanitize_error, body, json, query, eval, is_batch}

-- `At w`: a handler may be at `w`, with its request still open. `Post run`: it may end with `run`.
pub record IsKept {S : Type 0} (h : Handler S) (r : Request) (At : World S → Type 0)
    (Post : Run S → Type 0) : Type 0 where
  pub fails :
      (context : Context) (status : ℕ) (kind : Bytes) (w : World S)
      → (status == 403) ≡ false
      → At w
      → Post (fail_with h (sanitize_error context) status kind w)
  pub empties : (n : ℕ) (w : World S) → At w → Post (fail_text h (empty_item n) 400 w)
  pub spoils : (n : ℕ) (w : World S) → At w → Post (fail_text h (bad_item n) 400 w)
  pub blocks : (result : Result) (kind : Bytes) (w : World S) → At w → Post (block h result kind w)
  pub forwards : (text kind : Bytes) (w : World S) → At w → Post (forward h r text kind w)
  pub panics : (w : World S) → At w → Post (panicked, w)
  pub enters :
      (rule : Bytes) (w : World S)
      → At w
      → At (record w { events = record_rule_eval rule w.events })
  pub asks : (info : QueryInfo) (w : World S) → Carried h r info → At w → At (h.evaluate info w).1

module _ {S : Type 0} (h : Handler S) (r : Request) (At : World S → Type 0) (Post : Run S → Type 0)
    (kept : IsKept h r At Post) where
  -- An item of a batch leaves the handler open, or ends it.
  abbrev ItemPost : ItemResult S → Type 0
  ItemPost (passed kind w) = At w
  ItemPost (stopped run) = Post run

  act-Post :
      (text kind : Bytes) (verdict : Verdict) (w : World S)
      → At w
      → Post (act h r text kind verdict w)
  unfolding act
  act-Post text kind (decided result) w at =
      on_branch Post result.allowed _ _ (kept.forwards text kind w at)
        (kept.blocks result kind w at)
  act-Post text kind failed w at = kept.fails eval 500 kind w refl at
  act-Post text kind panic w at = kept.panics w at

  bad_query-Post : (w : World S) → At w → Post (bad_query h w)
  bad_query-Post w at = kept.fails query 400 _ w refl at

  bad_json-Post : (w : World S) → At w → Post (bad_json h w)
  bad_json-Post w at = kept.fails json 400 _ w refl at

  evaluate_and_forward-Post :
      (text : Bytes) (info : QueryInfo) (w : World S)
      → Carried h r (with_tenant r info)
      → At w
      → Post (evaluate_and_forward h r text info w)
  unfolding evaluate_and_forward
  evaluate_and_forward-Post text info w carried at = act-Post text _ _ _ (
      kept.asks (with_tenant r info) _ carried
        (kept.enters (codes "op_" ++ (with_tenant r info).operation_type) w at))

  inspect-Post :
      (text variables : Bytes) (info : Option QueryInfo) (w : World S)
      → ((parsed : QueryInfo)
          → info ≡ some parsed
          → Carried h r (with_tenant r (with_variables variables parsed)))
      → At w
      → Post (inspect h r text variables info w)
  unfolding inspect
  inspect-Post text variables none w carried at = bad_query-Post w at
  inspect-Post text variables (some info) w carried at =
      evaluate_and_forward-Post text (with_variables variables info) w (carried info refl) at

  handle_single-Post :
      (text : Bytes) (w : World S)
      → read_body h.max_body_bytes r.body ≡ read_ok text
      → At w
      → Post (handle_single h r text w)
  unfolding handle_single
  handle_single-Post text w is_read at = elim (Option-cases (h.decode_body text)) [
    | inl bad ↦ rw (bad, handle_single) (bad_json-Post w at)
    | inr ((request, more), decoded) ↦
        rw (decoded, handle_single)
          (on_branch Post more _ _ (bad_json-Post w at) (
            on_branch Post (is_empty request.query) _ _ (bad_query-Post w at) (
              inspect-Post text request.variables (parse_query_with_timeout h request.query) w
                (λ parsed e. alone text request more parsed is_read decoded e) at)))
  ]

  judge_item-Post :
      (kind : Bytes) (verdict : Verdict) (w : World S)
      → At w
      → ItemPost (judge_item h kind verdict w)
  unfolding judge_item
  judge_item-Post kind (decided result) w at =
      on_branch ItemPost result.allowed _ _ at (kept.blocks result kind w at)
  judge_item-Post kind failed w at = kept.fails eval 500 kind w refl at
  judge_item-Post kind panic w at = kept.panics w at

  batch_item-Post :
      (n : ℕ) (request : GraphqlBody) (w : World S)
      → ((parsed : QueryInfo)
          → parse_query_with_timeout h request.query ≡ some parsed
          → Carried h r (with_variables request.variables parsed))
      → At w
      → ItemPost (batch_item h n request w)
  unfolding batch_item evaluate_item
  batch_item-Post n request w carried at = elim (Bool-cases (is_empty request.query)) [
    | inl blank ↦ rw (blank, batch_item) (kept.empties n w at)
    | inr filled ↦ elim (Option-cases (parse_query_with_timeout h request.query)) [
      | inl unparsed ↦ rw (filled, batch_item, unparsed) (kept.spoils n w at)
      | inr (info, parsed) ↦
          rw (filled, batch_item, parsed)
            (let info' = with_variables request.variables info in
              judge_item-Post info'.operation_type (h.evaluate info' w).0 (h.evaluate info' w).1
                (kept.asks info' w (carried info parsed) at))
    ]
  ]

  after_item-Post :
      (item : ItemResult S) (go_on : Bytes → World S → Run S)
      → ItemPost item
      → ((kind : Bytes) (w : World S) → At w → Post (go_on kind w))
      → Post (elim item [ stopped run ↦ run | passed kind w ↦ go_on kind w ])
  after_item-Post (passed kind w) go_on at rest = rest kind w at
  after_item-Post (stopped run) go_on at rest = at

  batch_from-Post :
      (text : Bytes) (n : ℕ) (first : Bytes) (requests : List GraphqlBody) (w : World S)
      → ((request : GraphqlBody) (parsed : QueryInfo)
          → In request requests
          → parse_query_with_timeout h request.query ≡ some parsed
          → Carried h r (with_variables request.variables parsed))
      → At w
      → Post (batch_from h r text n first requests w)
  unfolding batch_from
  batch_from-Post text n first [] w carried at = kept.forwards text first w at
  batch_from-Post text n first (request ∷ requests) w carried at =
      after_item-Post (batch_item h n request w)
        (λ kind w'. batch_from h r text (suc n) (first_type n first kind) requests w')
        (batch_item-Post n request w (λ parsed. carried request parsed (inl refl)) at)
        (λ kind w'.
          batch_from-Post text (suc n) (first_type n first kind) requests w'
            (λ other parsed listed. carried other parsed (inr listed)))

  handle_batch-Post :
      (text : Bytes) (w : World S)
      → read_body h.max_body_bytes r.body ≡ read_ok text
      → At w
      → Post (handle_batch h r text w)
  unfolding handle_batch
  handle_batch-Post text w is_read at = elim (Option-cases (h.decode_batch text)) [
    | inl bad ↦ rw (bad, handle_batch) (bad_json-Post w at)
    | inr ([], decoded) ↦ rw (decoded, handle_batch) (bad_query-Post w at)
    | inr (request ∷ requests, decoded) ↦
        rw (decoded, handle_batch)
          (batch_from-Post text 0 (codes "unknown") (request ∷ requests) w
            (λ item parsed listed e.
              in_batch text (request ∷ requests) item parsed is_read decoded listed e)
            at)
  ]

  pub handle_text-Post :
      (result : ReadResult) (w : World S)
      → read_body h.max_body_bytes r.body ≡ result
      → At w
      → Post (handle_text h r result w)
  unfolding handle_text
  handle_text-Post too_large w is_read at = kept.fails body 413 _ w refl at
  handle_text-Post read_error w is_read at = kept.fails body 400 _ w refl at
  handle_text-Post (read_ok text) w is_read at =
      on_branch Post (is_batch text) _ _ (handle_batch-Post text w is_read at)
        (handle_single-Post text w is_read at)

  pub handle_graphql_get-Post : (w : World S) → At w → Post (handle_graphql_get h r w)
  unfolding handle_graphql_get
  handle_graphql_get-Post w at =
      let q = get_value (codes "query") r.url_query in
      elim (Bool-cases (is_empty q)) [
        | inl blank ↦ rw (blank, handle_graphql_get) (bad_query-Post w at)
        | inr filled ↦ elim (Option-cases (parse_query_with_timeout h q)) [
          | inl unparsed ↦ rw (filled, handle_graphql_get, unparsed) (bad_query-Post w at)
          | inr (info, parsed) ↦
              rw (filled, handle_graphql_get, parsed)
                (evaluate_and_forward-Post _ _ w (in_url info parsed) at)
        ]
      ]
