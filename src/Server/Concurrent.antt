-- ===== src/Server/Concurrent.antt =====
-- Evaluations that interleave, with each other and with the admin API (main.go): compositeEvaluator
-- holds its lock for the cache lookup and for the cache write, and the store its own for each read, but
-- nothing is held in between. One step is one access to what is shared.
pub mod Sound
pub mod Staleness
pub mod Told
pub mod Alone
use gql_firewall.Base.{
  ℕ, ◌+◌, Bytes, [], Option, none, some, Map, lookup, insert, ltb, ◌==◌, if◌then◌else◌, ◌≡◌,
}
use gql_firewall.Opa.Json.{Object, Result}
use gql_firewall.Opa.Input.{Input, build_input, store_params}
use gql_firewall.Opa.Store.{DataStore, Change, apply_change}
use gql_firewall.Parser.Info.{QueryInfo}
use gql_firewall.Server.CacheKey.{decision_cache_key}
use gql_firewall.Server.Evaluate.{Config, CachedDecision, allow, deny, unavailable, schema_refusal}
use gql_firewall.Server.Evaluate.History.{final_result}

-- A cached decision, with what the source does not keep: the version of the store and the time at which
-- the reading of its input began, and the time at which it was stored.
pub record Entry : Type 0 where
  pub decision : CachedDecision
  pub version : ℕ
  pub read_at : ℕ
  pub stored_at : ℕ

-- What the threads share, with the clock. `version` counts the changes of the store, and `updated_at` is
-- the time of the last one.
pub record Shared : Type 0 where
  pub store : DataStore
  pub cache : Map Entry
  pub time : ℕ
  pub version : ℕ
  pub updated_at : ℕ

-- How far an evaluation has come. The two numbers are the version and the time at which it read the
-- parameters.
pub data Stage : Type 0 where
  idle : Stage
  entered : QueryInfo → Stage
  got_params : QueryInfo → Object → ℕ → ℕ → Stage
  built : QueryInfo → Input → ℕ → ℕ → Stage
  missed : QueryInfo → Input → ℕ → ℕ → Stage
  answered : QueryInfo → Result → ℕ → ℕ → Stage
  returned : Result → Stage

unfoldable pub change_store : Change → Shared → Shared
unfolding apply_change
change_store ch m = record m {
  store = apply_change ch m.store;
  version = m.version + 1;
  updated_at = m.time;
}

module _ (c : Config) where
  -- `BuildInput` after its reads of the parameters and of the tenant's configuration.
  unfoldable pub input_of : QueryInfo → Object → DataStore → Input
  input_of info params store = record (build_input c.unmarshal info (some store)) {
    params = params;
  }

  -- The schema, before anything that is shared is touched.
  unfoldable pub enter : QueryInfo → Stage
  enter info = elim (schema_refusal c info) [
    | some reason ↦ returned (deny reason)
    | none ↦ entered info
  ]

  abbrev pub fresh_entry : ℕ → Option Entry → Option Result
  fresh_entry now none = none
  fresh_entry now (some e) = if ltb now e.decision.expiry then some e.decision.result else none

  -- The cache lookup under the read lock.
  unfoldable pub look_up : Bytes → Shared → Option Result
  look_up key m = if ltb 0 c.cache_ttl then fresh_entry m.time (lookup key m.cache) else none

  abbrev pub after_lookup : QueryInfo → Input → ℕ → ℕ → Option Result → Stage
  after_lookup info input v t none = missed info input v t
  after_lookup info input v t (some r) = returned (final_result c r)

  abbrev pub after_opa : QueryInfo → ℕ → ℕ → Option Result → Stage
  after_opa info v t none = returned (if c.opa_fail_closed then deny unavailable else allow)
  after_opa info v t (some r) = answered info (final_result c r) v t

  -- The cache write under the lock.
  unfoldable pub store_entry : QueryInfo → Result → ℕ → ℕ → Shared → Shared
  store_entry info result v t m =
      if ltb 0 c.cache_ttl
      then record m {
        cache =
            insert (decision_cache_key info)
              (record {
                decision = record { result = result; expiry = m.time + c.cache_ttl };
                version = v;
                read_at = t;
                stored_at = m.time;
              })
              m.cache;
      }
      else m

  -- The next access of an evaluation.
  unfoldable pub advance : Stage → Shared → Stage × Shared
  unfolding input_of look_up store_entry
  advance idle m = (idle, m)
  advance (entered info) m = (got_params info (store_params (some m.store)) m.version m.time, m)
  advance (got_params info params v t) m = (built info (input_of info params m.store) v t, m)
  advance (built info input v t) m =
      (after_lookup info input v t (look_up (decision_cache_key info) m), m)
  advance (missed info input v t) m = (after_opa info v t (c.opa input), m)
  advance (answered info result v t) m = (returned result, store_entry info result v t m)
  advance (returned result) m = (returned result, m)

-- The threads, by number, and what they share.
pub record System : Type 0 where
  pub shared : Shared
  pub stage : ℕ → Stage

abbrev pub set_stage : (ℕ → Stage) → ℕ → Stage → ℕ → Stage
set_stage stage i new j = if i == j then new else stage j

-- A thread takes a query when it has none, or goes on; the admin API changes the store; time passes.
pub data Step (c : Config) (s : System) : System → Type 0 where
  begin :
      (i : ℕ) (info : QueryInfo)
      → s.stage i ≡ idle
      → Step c s (record s { stage = set_stage s.stage i (enter c info) })
  go_on :
      (i : ℕ)
      → Step c s (record {
        shared = (advance c (s.stage i) s.shared).1;
        stage = set_stage s.stage i (advance c (s.stage i) s.shared).0;
      })
  answer :
      (i : ℕ) (r : Result)
      → s.stage i ≡ returned r
      → Step c s (record s { stage = set_stage s.stage i idle })
  change : (ch : Change) → Step c s (record s { shared = change_store ch s.shared })
  wait : (n : ℕ) → Step c s (record s { shared = record s.shared { time = s.shared.time + n } })

-- A server that starts with a store, an empty cache and no query under way.
abbrev pub initial : DataStore → ℕ → System
initial store now = record {
  shared = record { store = store; cache = []; time = now; version = 0; updated_at = now };
  stage = λ i. idle;
}

pub data Reach (c : Config) (store : DataStore) (now : ℕ) : System → Type 0 where
  start : Reach c store now (initial store now)
  next : {s t : System} → Reach c store now s → Step c s t → Reach c store now t
