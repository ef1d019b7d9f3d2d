-- ===== src/Opa/Embedded.antt =====
-- EmbeddedEvaluator (embed.go). The Rego engine is a parameter: `prepare` is v1.New with
-- PrepareForEval of a query over a policy, `eval` is PreparedEvalQuery.Eval; an error is `none`.
pub mod Laws
use gql_firewall.Base.{
  Bytes, Bool, true, false, List, [], ◌∷◌, Option, none, some, is_empty, if◌then◌else◌, codes,
  ◌>>=◌,
}
use gql_firewall.Opa.Json.{
  Json, null, bool, number, str, array, object, Items, nil, cons, Object, Result,
}
use gql_firewall.Opa.Store.{DataStore, new_data_store, set_params}
use gql_firewall.Opa.Input.{Input}
use gql_firewall.Opa.Evaluators.{Evaluator}

-- rego.Result: the values of its expressions.
pub record RegoResult : Type 0 where
  pub expressions : List Json

pub record Engine : Type 1 where
  pub Prepared : Type 0
  pub prepare : Bytes → Bytes → Option Prepared
  pub eval : Prepared → Input → Option (List RegoResult)

pub record EmbedConfig : Type 0 where
  pub policy : Bytes
  pub store : Option DataStore

-- `len(rs) == 0 || len(rs[0].Expressions) == 0`, or the value of `rs[0].Expressions[0]`.
unfoldable pub first_expression : List RegoResult → Option Json
first_expression [] = none
first_expression (r ∷ rs) = elim r.expressions [ [] ↦ none | v ∷ vs ↦ some v ]

abbrev pub denied : Bytes → Result
denied reason = record { allowed = false; reason = reason }

abbrev pub no_result : Bytes
no_result = codes "OPA policy evaluation returned no result"

abbrev pub non_boolean : Bytes
non_boolean = codes "OPA policy returned non-boolean result"

abbrev pub blocked_by_policy : Bytes
blocked_by_policy = codes "blocked by OPA policy"

-- The first element of the deny set, if it is a string.
unfoldable pub first_denial : Option Json → Bytes
first_denial (some (array (cons (str reason) rest))) = reason
first_denial v = blocked_by_policy

unfoldable pub deny_reason : Option (List RegoResult) → Bytes
unfolding first_expression first_denial
deny_reason none = blocked_by_policy
deny_reason (some rs) = first_denial (first_expression rs)

-- The decision on the first value of the allow query; `deny` is the result of the deny query.
unfoldable pub decide_allow : Option Json → Option (List RegoResult) → Result
unfolding deny_reason
decide_allow none deny = denied no_result
decide_allow (some (bool true)) deny = record { allowed = true; reason = [] }
decide_allow (some (bool false)) deny = denied (deny_reason deny)
decide_allow (some v) deny = denied non_boolean

module _ (engine : Engine) where
  pub record Embedded : Type 0 where
    pub prepared : Option engine.Prepared
    pub prepared_deny : Option engine.Prepared
    pub store : DataStore
    pub policy : Bytes

  unfoldable pub compile : Embedded → Option Embedded
  compile e = engine.prepare (codes "data.graphql.allow") e.policy >>= λ allow.
      engine.prepare (codes "data.graphql.deny") e.policy >>= λ deny.
      some (record e { prepared = some allow; prepared_deny = some deny })

  unfoldable pub store_or_new : Option DataStore → DataStore
  store_or_new none = new_data_store
  store_or_new (some s) = s

  unfoldable pub new_embedded : EmbedConfig → Option Embedded
  unfolding compile store_or_new
  new_embedded cfg =
      if is_empty cfg.policy
      then none
      else compile (record {
        prepared = none;
        prepared_deny = none;
        store = store_or_new cfg.store;
        policy = cfg.policy;
      })

  -- The two prepared queries are read together; without either there is an error.
  unfoldable pub run_prepared :
      Option engine.Prepared → Option engine.Prepared → Input → Option Result
  unfolding first_expression decide_allow
  run_prepared (some allow) (some deny) input = engine.eval allow input >>= λ rs.
      some (decide_allow (first_expression rs) (engine.eval deny input))
  run_prepared allow deny input = none

  unfoldable pub embedded_evaluate : Embedded → Input → Option Result
  unfolding run_prepared
  embedded_evaluate e input = run_prepared e.prepared e.prepared_deny input

  -- `SetParams` writes the store of the evaluator.
  unfoldable pub embedded_set_params : Object → Embedded → Embedded
  unfolding set_params
  embedded_set_params params e = record e { store = set_params params e.store }

  abbrev pub embedded_evaluator : Embedded → Evaluator
  embedded_evaluator e = record { evaluate = embedded_evaluate e; configured = true }
