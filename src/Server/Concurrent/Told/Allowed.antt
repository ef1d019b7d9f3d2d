-- ===== src/Server/Concurrent/Told/Allowed.antt =====
-- What stands behind an evaluation (main.go) that allows its query among others and the admin API.
use gql_firewall.Base.{
  ℕ, Bytes, true, false, Option, none, some, ◌≡◌, inl, inr, sym, ap, subst, ◌∙◌, Option-cases,
  arith,
}
use gql_firewall.Opa.Json.{Result}
use gql_firewall.Opa.Input.{Input}
use gql_firewall.Opa.Store.{DataStore}
use gql_firewall.Parser.Info.{QueryInfo}
use gql_firewall.Server.CacheKey.{decision_cache_key}
use gql_firewall.Server.Evaluate.{Config}
use gql_firewall.Server.Evaluate.History.{final_result}
use gql_firewall.Server.Concurrent.{
  Shared, Stage, idle, entered, got_params, built, missed, answered, returned, look_up, advance,
  after_lookup, after_opa, System, Reach,
}
use gql_firewall.Server.Concurrent.Staleness.{look_up-Found}
use gql_firewall.Server.Concurrent.Told.{IsTold, OpaSaid, StageTold, CacheTold}
use gql_firewall.Server.Concurrent.Told.Run.{Had, Reach-AllTold}

-- The query of an evaluation under way.
abbrev pub query_of : Stage → Option QueryInfo
query_of idle = none
query_of (entered info) = some info
query_of (got_params info params v t) = some info
query_of (built info input v t) = some info
query_of (missed info input v t) = some info
query_of (answered info result v t) = some info
query_of (returned result) = none

-- OPA allowed a query with this key, told parameters and a tenant's configuration that the store had.
pub record OpaAllowed (c : Config) (H : DataStore → Type 0) (key : Bytes) : Type 0 where
  pub query : QueryInfo
  pub same_key : decision_cache_key query ≡ key
  pub input : Input
  pub is_told : IsTold c H query input
  pub answer : Result
  pub answered : c.opa input ≡ some answer
  pub allowed : answer.allowed ≡ true

module _ (c : Config) (closed : c.opa_fail_closed ≡ true)
    (enforced : c.opa_audit_only ≡ false) where
  final_result-allowed : (r : Result) → (final_result c r).allowed ≡ r.allowed
  final_result-allowed r = ground arith

  module _ (H : DataStore → Type 0) where
    OpaSaid-Allowed :
        {key : Bytes} {r : Result} → OpaSaid c H key r → r.allowed ≡ true → OpaAllowed c H key
    OpaSaid-Allowed said ok = record {
      query = said.query;
      same_key = said.same_key;
      input = said.input;
      is_told = said.is_told;
      answer = said.answer;
      answered = said.answered;
      allowed =
          sym (final_result-allowed said.answer) ∙ ap (λ x. x.allowed) (sym said.decided) ∙ ok;
    }

    look_up-Allowed :
        (info : QueryInfo) (input : Input) (v t : ℕ) (m : Shared) (r : Result)
        → CacheTold c H m.cache
        → after_lookup c info input v t (look_up c (decision_cache_key info) m) ≡ returned r
        → r.allowed ≡ true
        → OpaAllowed c H (decision_cache_key info)
    look_up-Allowed info input v t m r cached done ok =
        elim (Option-cases (look_up c (decision_cache_key info) m)) [
          | inl none_found ↦ absurd (ground arith)
          | inr (x, hit) ↦
              let found = look_up-Found c (decision_cache_key info) m x hit in
              let end : returned (final_result c x) ≡ returned r =
                ap (after_lookup c info input v t) (sym hit) ∙ done in
              let final : final_result c x ≡ r = cc in
              OpaSaid-Allowed (cached (decision_cache_key info) found.entry found.at) (
                ap (λ q. q.allowed) found.result
                ∙ sym (final_result-allowed x)
                ∙ ap (λ q. q.allowed) final
                ∙ ok)
        ]

    after_opa-Refused :
        (info : QueryInfo) (v t : ℕ) (o : Option Result) (r : Result)
        → after_opa c info v t o ≡ returned r
        → r.allowed ≡ false
    after_opa-Refused info v t none r done = ground arith
    after_opa-Refused info v t (some x) r done = absurd (ground arith)

    advance-Allowed :
        (stage : Stage) (m : Shared) (info : QueryInfo) (r : Result)
        → StageTold c H stage
        → CacheTold c H m.cache
        → query_of stage ≡ some info
        → (advance c stage m).0 ≡ returned r
        → r.allowed ≡ true
        → OpaAllowed c H (decision_cache_key info)
    unfolding advance
    advance-Allowed idle m info r h cached asks done ok = absurd (ground arith)
    advance-Allowed (entered q) m info r h cached asks done ok = absurd (ground arith)
    advance-Allowed (got_params q params v t) m info r h cached asks done ok = absurd (ground arith)
    advance-Allowed (built q input v t) m info r h cached asks done ok =
        let same : q ≡ info = cc in
        subst (λ x. OpaAllowed c H (decision_cache_key x)) same
          (look_up-Allowed q input v t m r cached done ok)
    advance-Allowed (missed q input v t) m info r h cached asks done ok =
        absurd (ground (arith, after_opa-Refused q v t (c.opa input) r done))
    advance-Allowed (answered q result v t) m info r h cached asks done ok =
        let same : q ≡ info = cc in
        let end : result ≡ r = cc in
        subst (λ x. OpaAllowed c H (decision_cache_key x)) same
          (OpaSaid-Allowed h (ap (λ x. x.allowed) end ∙ ok))
    advance-Allowed (returned result) m info r h cached asks done ok = absurd (ground arith)

-- In every interleaving of evaluations, changes of the store and the passing of time, with --opa-fail-closed
-- and without --opa-audit-only: when the next access of an evaluation returns with a result that allows
-- its query, OPA has allowed a query with the same cache key, and was told parameters and a tenant's
-- configuration that the store had at some point of the run.
pub advance-OpaAllowed :
    (c : Config) (store : DataStore) (now : ℕ) (s : System) (run : Reach c store now s)
    → c.opa_fail_closed ≡ true
    → c.opa_audit_only ≡ false
    → (i : ℕ) (info : QueryInfo) (r : Result) → query_of (s.stage i) ≡ some info
    → (advance c (s.stage i) s.shared).0 ≡ returned r
    → r.allowed ≡ true
    → OpaAllowed c (Had run) (decision_cache_key info)
advance-OpaAllowed c store now s run closed enforced i info r asks done ok =
    let h = Reach-AllTold run in
    advance-Allowed c closed enforced (Had run) (s.stage i) s.shared info r (h.staged i) h.cached
      asks done ok
