-- ===== src/Server/Concurrent/Sound.antt =====
-- Soundness of the interleavings of evaluations (main.go): what each stage of an evaluation and each
-- cached decision knows of the store, and that it is kept while time and versions grow.
pub mod Growth
pub mod Steps
use gql_firewall.Base.{
  ℕ, ◌+◌, ◌-◌, ◌≤◌, ◌<◌, Bytes, Option, none, some, lookup, ◌≡◌, ◌∙◌, inl, inr, refl, sym, ap,
  subst, Option-cases, arith,
}
use gql_firewall.Opa.Json.{Object, Result}
use gql_firewall.Opa.Input.{Input, build_input, store_params}
use gql_firewall.Opa.Store.{DataStore}
use gql_firewall.Parser.Info.{QueryInfo}
use gql_firewall.Server.CacheKey.{decision_cache_key}
use gql_firewall.Server.Evaluate.{Config, schema_refusal}
use gql_firewall.Server.Evaluate.History.{final_result}
use gql_firewall.Server.Concurrent.{
  Entry, Shared, Stage, idle, entered, got_params, built, missed, answered, returned, input_of,
  enter, look_up, after_lookup, after_opa, advance, System, answer,
}

-- A read that began at version `v` and time `t`.
pub record IsRead (m : Shared) (v t : ℕ) : Type 0 where
  pub version : v ≤ m.version
  pub before_update : v < m.version → t ≤ m.updated_at
  pub past : t ≤ m.time

-- OPA's answer to the query under the store `d`.
abbrev pub answer_under : Config → DataStore → QueryInfo → Option Result
answer_under c d info = c.opa (build_input c.unmarshal info (some d))

module _ (c : Config) where
  -- The decision on the query that OPA's answer under the store makes.
  pub record DecidedUnder (d : DataStore) (info : QueryInfo) (result : Result) : Type 0 where
    pub answer : Result
    pub answered : answer_under c d info ≡ some answer
    pub decided : result ≡ final_result c answer

  abbrev pub StageSound : Shared → Stage → Type 0
  StageSound m idle = Unit
  StageSound m (entered info) = Unit
  StageSound m (got_params info params v t) =
      IsRead m v t × (v ≡ m.version → params ≡ store_params (some m.store))
  StageSound m (built info input v t) =
      IsRead m v t × (v ≡ m.version → input ≡ build_input c.unmarshal info (some m.store))
  StageSound m (missed info input v t) =
      IsRead m v t × (v ≡ m.version → input ≡ build_input c.unmarshal info (some m.store))
  StageSound m (answered info result v t) =
      IsRead m v t × (v ≡ m.version → DecidedUnder m.store info result)
  StageSound m (returned result) = Unit

  pub record EntrySound (m : Shared) (key : Bytes) (e : Entry) : Type 0 where
    pub read : IsRead m e.version e.read_at
    pub stored : e.stored_at ≤ m.time
    pub later : e.read_at ≤ e.stored_at
    pub expiry : e.decision.expiry ≡ e.stored_at + c.cache_ttl
    pub query : QueryInfo
    pub same_key : decision_cache_key query ≡ key
    pub current : e.version ≡ m.version → DecidedUnder m.store query e.decision.result

  abbrev pub CacheSound : Shared → Type 0
  CacheSound m = (key : Bytes) (e : Entry) → lookup key m.cache ≡ some e → EntrySound m key e

  pub record IsSound (s : System) : Type 0 where
    pub updated : s.shared.updated_at ≤ s.shared.time
    pub cached : CacheSound s.shared
    pub staged : (i : ℕ) → StageSound s.shared (s.stage i)

  -- One access of one evaluation.
  input_of-current :
      (info : QueryInfo) (params : Object) (d : DataStore)
      → params ≡ store_params (some d)
      → input_of c info params d ≡ build_input c.unmarshal info (some d)
  unfolding input_of build_input
  input_of-current info params d same =
      ap (λ p. record (build_input c.unmarshal info (some d)) { params = p }) same

  after_lookup-StageSound :
      (info : QueryInfo) (input : Input) (v t : ℕ) (m : Shared) (r : Option Result)
      → StageSound m (built info input v t)
      → StageSound m (after_lookup c info input v t r)
  after_lookup-StageSound info input v t m none h = h
  after_lookup-StageSound info input v t m (some r) h = tt

  after_opa-StageSound :
      (info : QueryInfo) (input : Input) (v t : ℕ) (m : Shared) (r : Option Result)
      → c.opa input ≡ r
      → StageSound m (missed info input v t)
      → StageSound m (after_opa c info v t r)
  after_opa-StageSound info input v t m none asked h = tt
  after_opa-StageSound info input v t m (some r) asked h =
      (h.0, λ e. record { answer = r; answered = ap c.opa (sym (h.1 e)) ∙ asked; decided = refl })

  pub advance_stage-StageSound :
      (stage : Stage) (m : Shared) → StageSound m stage → StageSound m (advance c stage m).0
  unfolding advance
  advance_stage-StageSound idle m h = tt
  advance_stage-StageSound (entered info) m h = (
    record { version = omega arith; before_update = λ p. absurd (omega arith); past = omega arith },
    λ e. refl,
  )
  advance_stage-StageSound (got_params info params v t) m h =
      (h.0, λ e. input_of-current info params m.store (h.1 e))
  advance_stage-StageSound (built info input v t) m h =
      after_lookup-StageSound info input v t m (look_up c (decision_cache_key info) m) h
  advance_stage-StageSound (missed info input v t) m h =
      after_opa-StageSound info input v t m (c.opa input) refl h
  advance_stage-StageSound (answered info result v t) m h = tt
  advance_stage-StageSound (returned result) m h = tt

  pub enter-StageSound : (info : QueryInfo) (m : Shared) → StageSound m (enter c info)
  unfolding enter
  enter-StageSound info m = elim (Option-cases (schema_refusal c info)) [
    | inl passed ↦ rw (passed, StageSound) tt
    | inr (reason, refused) ↦ rw (refused, StageSound) tt
  ]

-- What an access, a change of the store or the passing of time does to what is shared: time and
-- versions grow, and a store that keeps its version is the same.
pub record Later (m m' : Shared) : Type 0 where
  pub version : m.version ≤ m'.version
  pub time : m.time ≤ m'.time
  pub updated : m.updated_at ≤ m'.updated_at
  pub changed : m.version < m'.version → m.time ≤ m'.updated_at
  pub same_store : m.version ≡ m'.version → m.store ≡ m'.store

module _ {m m' : Shared} (l : Later m m') where
  pub IsRead-Later : (v t : ℕ) → IsRead m v t → IsRead m' v t
  IsRead-Later v t r = record {
    version = omega arith;
    before_update = λ lt. ground arith;
    past = omega arith;
  }

  -- What holds of the current store goes on to hold while the store keeps its version.
  pub current-Later :
      (v : ℕ) (P : DataStore → Type 0)
      → v ≤ m.version
      → (v ≡ m.version → P m.store)
      → v ≡ m'.version
      → P m'.store
  current-Later v P le h e =
      let same : m.version ≡ m'.version = omega arith in
      subst P (l.same_store same) (h (e ∙ sym same))

  pub StageSound-Later : (c : Config) (stage : Stage) → StageSound c m stage → StageSound c m' stage
  StageSound-Later c idle h = tt
  StageSound-Later c (entered info) h = tt
  StageSound-Later c (got_params info params v t) h =
      (IsRead-Later v t h.0, current-Later v (λ d. params ≡ store_params (some d)) h.0.version h.1)
  StageSound-Later c (built info input v t) h = (
    IsRead-Later v t h.0,
    current-Later v (λ d. input ≡ build_input c.unmarshal info (some d)) h.0.version h.1,
  )
  StageSound-Later c (missed info input v t) h = (
    IsRead-Later v t h.0,
    current-Later v (λ d. input ≡ build_input c.unmarshal info (some d)) h.0.version h.1,
  )
  StageSound-Later c (answered info result v t) h =
      (IsRead-Later v t h.0, current-Later v (λ d. DecidedUnder c d info result) h.0.version h.1)
  StageSound-Later c (returned result) h = tt

  pub EntrySound-Later :
      (c : Config) (key : Bytes) (e : Entry) → EntrySound c m key e → EntrySound c m' key e
  EntrySound-Later c key e h = record {
    read = IsRead-Later e.version e.read_at h.read;
    stored = omega arith;
    later = h.later;
    expiry = h.expiry;
    query = h.query;
    same_key = h.same_key;
    current =
        current-Later e.version (λ d. DecidedUnder c d h.query e.decision.result) h.read.version
          h.current;
  }
