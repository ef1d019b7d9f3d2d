-- ===== src/Server/Concurrent/Told.antt =====
-- What OPA was told and said before an evaluation (main.go) returns, whatever other evaluations and the
-- admin API do in between: the parameters and the tenant's configuration in an input are those of stores
-- that the run had.
pub mod Run
pub mod Allowed
use gql_firewall.Base.{
  ℕ, Bytes, Option, none, some, Map, lookup, insert, lookup-insert, bytes_equal, bytes_equal_iff,
  ltb, ◌≡◌, inl, inr, refl, sym, ap, subst, ◌∙◌, Bool-cases, Option-cases,
}
use gql_firewall.Opa.Json.{Result}
use gql_firewall.Opa.Input.{Input, store_params}
use gql_firewall.Opa.Store.{DataStore}
use gql_firewall.Parser.Info.{QueryInfo}
use gql_firewall.Server.CacheKey.{decision_cache_key}
use gql_firewall.Server.Evaluate.{Config, schema_refusal}
use gql_firewall.Server.Evaluate.History.{final_result}
use gql_firewall.Server.Concurrent.{
  Entry, Shared, Stage, idle, entered, got_params, built, missed, answered, returned, input_of,
  enter, look_up, after_lookup, after_opa, store_entry, advance, answer,
}

module _ (c : Config) (H : DataStore → Type 0) where
  -- An input for the query, with parameters and a tenant's configuration that the store had.
  pub record IsTold (info : QueryInfo) (input : Input) : Type 0 where
    pub params_of : DataStore
    pub tenant_of : DataStore
    pub params_had : H params_of
    pub tenant_had : H tenant_of
    pub told : input ≡ input_of c info (store_params (some params_of)) tenant_of

  -- The result is what is made of OPA's answer to such an input for a query with this key.
  pub record OpaSaid (key : Bytes) (result : Result) : Type 0 where
    pub query : QueryInfo
    pub same_key : decision_cache_key query ≡ key
    pub input : Input
    pub is_told : IsTold query input
    pub answer : Result
    pub answered : c.opa input ≡ some answer
    pub decided : result ≡ final_result c answer

  abbrev pub StageTold : Stage → Type 0
  StageTold (got_params info params v t) = (d : DataStore) × H d × (params ≡ store_params (some d))
  StageTold (built info input v t) = IsTold info input
  StageTold (missed info input v t) = IsTold info input
  StageTold (answered info result v t) = OpaSaid (decision_cache_key info) result
  StageTold stage = Unit

  abbrev pub CacheTold : Map Entry → Type 0
  CacheTold cache =
      (key : Bytes) (e : Entry) → lookup key cache ≡ some e → OpaSaid key e.decision.result

  -- One access of one evaluation.
  after_lookup-StageTold :
      (info : QueryInfo) (input : Input) (v t : ℕ) (r : Option Result)
      → IsTold info input
      → StageTold (after_lookup c info input v t r)
  after_lookup-StageTold info input v t none h = h
  after_lookup-StageTold info input v t (some r) h = tt

  after_opa-StageTold :
      (info : QueryInfo) (input : Input) (v t : ℕ) (r : Option Result)
      → c.opa input ≡ r
      → IsTold info input
      → StageTold (after_opa c info v t r)
  after_opa-StageTold info input v t none said h = tt
  after_opa-StageTold info input v t (some r) said h = record {
    query = info;
    same_key = refl;
    input = input;
    is_told = h;
    answer = r;
    answered = said;
    decided = refl;
  }

  pub advance-StageTold :
      (stage : Stage) (m : Shared) → H m.store → StageTold stage → StageTold (advance c stage m).0
  unfolding advance
  advance-StageTold idle m had h = tt
  advance-StageTold (entered info) m had h = (m.store, had, refl)
  advance-StageTold (got_params info params v t) m had (d, before, same) = record {
    params_of = d;
    tenant_of = m.store;
    params_had = before;
    tenant_had = had;
    told = ap (λ p. input_of c info p m.store) same;
  }
  advance-StageTold (built info input v t) m had h =
      after_lookup-StageTold info input v t (look_up c (decision_cache_key info) m) h
  advance-StageTold (missed info input v t) m had h =
      after_opa-StageTold info input v t (c.opa input) refl h
  advance-StageTold (answered info result v t) m had h = tt
  advance-StageTold (returned result) m had h = tt

  pub enter-StageTold : (info : QueryInfo) → StageTold (enter c info)
  unfolding enter
  enter-StageTold info = elim (Option-cases (schema_refusal c info)) [
    | inl passed ↦ rw (passed, StageTold) tt
    | inr (reason, refused) ↦ rw (refused, StageTold) tt
  ]

  store_entry-key :
      (info : QueryInfo) (result : Result) (e new : Entry) (cache : Map Entry) (key : Bytes)
      → OpaSaid (decision_cache_key info) result
      → new.decision.result ≡ result
      → CacheTold cache
      → lookup key (insert (decision_cache_key info) new cache) ≡ some e
      → OpaSaid key e.decision.result
  store_entry-key info result e new cache key said holds cached at =
      elim (Bool-cases (bytes_equal (decision_cache_key info) key)) [
        | inr other ↦ cached key e (rw other at (rw lookup-insert at at))
        | inl same ↦
            let found : some new ≡ some e = rw same at (rw lookup-insert at at) in
            let new_entry : new ≡ e = cc in
            subst (λ k. OpaSaid k e.decision.result)
              ((bytes_equal_iff (decision_cache_key info) key).0 same)
              (subst (OpaSaid (decision_cache_key info))
                (sym holds ∙ ap (λ x. x.decision.result) new_entry) said)
      ]

  store_entry-CacheTold :
      (info : QueryInfo) (result : Result) (v t : ℕ) (m : Shared)
      → OpaSaid (decision_cache_key info) result
      → CacheTold m.cache
      → CacheTold (store_entry c info result v t m).cache
  unfolding store_entry
  store_entry-CacheTold info result v t m said cached key e at =
      elim (Bool-cases (ltb 0 c.cache_ttl)) [
        | inl on ↦ store_entry-key info result e _ m.cache key said refl cached (rw on at at)
        | inr off ↦ cached key e (rw off at at)
      ]

  pub advance-CacheTold :
      (stage : Stage) (m : Shared)
      → StageTold stage
      → CacheTold m.cache
      → CacheTold (advance c stage m).1.cache
  unfolding advance
  advance-CacheTold idle m h cached = cached
  advance-CacheTold (entered info) m h cached = cached
  advance-CacheTold (got_params info params v t) m h cached = cached
  advance-CacheTold (built info input v t) m h cached = cached
  advance-CacheTold (missed info input v t) m h cached = cached
  advance-CacheTold (answered info result v t) m h cached =
      store_entry-CacheTold info result v t m h cached
  advance-CacheTold (returned result) m h cached = cached
