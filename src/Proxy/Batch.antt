-- ===== src/Proxy/Batch.antt =====
-- handleGraphQLBatch (proxy.go): every item of the batch is evaluated on its own, in order.
use gql_firewall.Base.{
  ℕ, zero, suc, Bytes, List, [], ◌∷◌, ◌++◌, none, some, is_empty, if◌then◌else◌, codes, decimal,
}
use gql_firewall.Parser.Info.{QueryInfo}
use gql_firewall.Proxy.Text.{sanitize_error, eval}
use gql_firewall.Proxy.Http.{Request, panicked}
use gql_firewall.Proxy.Handler.{
  GraphqlBody, Verdict, decided, failed, panic, World, Handler, Run, fail_with, fail_text, block,
  forward, parse_query_with_timeout, with_variables, bad_query, bad_json,
}

unfoldable pub empty_item : ℕ → Bytes
empty_item i = codes "{\"error\": \"batch item " ++ (decimal i ++ codes " has empty query\"}")

unfoldable pub bad_item : ℕ → Bytes
bad_item i =
    codes "{\"error\": \"invalid GraphQL query at batch index " ++ (decimal i ++ codes "\"}")

-- How one item of a batch ends: the loop goes on with the type of its operation, or the handler is
-- done.
pub data ItemResult (S : Type 0) : Type 0 where
  passed : (operation_type : Bytes) → World S → ItemResult S
  stopped : Run S → ItemResult S

abbrev pub first_type : ℕ → Bytes → Bytes → Bytes
first_type zero old new = new
first_type (suc i) old new = old

module _ {S : Type 0} (h : Handler S) where
  unfoldable pub judge_item : Bytes → Verdict → World S → ItemResult S
  judge_item operation_type (decided result) w =
      if result.allowed then passed operation_type w else stopped (block h result operation_type w)
  judge_item operation_type failed w =
      stopped (fail_with h (sanitize_error eval) 500 operation_type w)
  judge_item operation_type panic w = stopped (panicked, w)

  unfoldable pub evaluate_item : QueryInfo → World S → ItemResult S
  evaluate_item info w =
      let (verdict, w') = h.evaluate info w in judge_item info.operation_type verdict w'

  unfoldable pub batch_item : ℕ → GraphqlBody → World S → ItemResult S
  batch_item i request w =
      if is_empty request.query
      then stopped (fail_text h (empty_item i) 400 w)
      else elim (parse_query_with_timeout h request.query) [
        | none ↦ stopped (fail_text h (bad_item i) 400 w)
        | some info ↦ evaluate_item (with_variables request.variables info) w
      ]

  -- The loop over the batch, from item `i`; `first` is `firstOpType`.
  unfoldable pub batch_from : Request → Bytes → ℕ → Bytes → List GraphqlBody → World S → Run S
  batch_from r text i first [] w = forward h r text first w
  batch_from r text i first (request ∷ batch) w = elim (batch_item i request w) [
    | stopped run ↦ run
    | passed operation_type w' ↦
        batch_from r text (suc i) (first_type i first operation_type) batch w'
  ]

  unfoldable pub handle_batch : Request → Bytes → World S → Run S
  handle_batch r text w = elim (h.decode_batch text) [
    | none ↦ bad_json h w
    | some [] ↦ bad_query h w
    | some (request ∷ batch) ↦ batch_from r text 0 (codes "unknown") (request ∷ batch) w
  ]
