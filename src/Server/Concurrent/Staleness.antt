-- ===== src/Server/Concurrent/Staleness.antt =====
-- How long a change of the parameters or of a tenant's configuration can fail to show in the answers of
-- the decision cache (main.go) while evaluations and admin requests interleave.
use gql_firewall.Base.{
  ℕ, ◌+◌, ◌≤◌, ◌<◌, Bytes, some, lookup, ◌≡◌, inl, inr, subst, Bool-cases, Option-cases, ltb,
  ltb→lt, ltb-false→le, arith,
}
use gql_firewall.Opa.Json.{Result}
use gql_firewall.Opa.Store.{DataStore}
use gql_firewall.Parser.Info.{QueryInfo}
use gql_firewall.Server.CacheKey.{decision_cache_key}
use gql_firewall.Server.Evaluate.{Config}
use gql_firewall.Server.Concurrent.{Entry, Shared, look_up, System, Reach}
use gql_firewall.Server.Concurrent.Sound.{DecidedUnder, EntrySound}
use gql_firewall.Server.Concurrent.Sound.Steps.{Reach-IsSound}

-- The cached decision of a hit.
pub record Found (c : Config) (key : Bytes) (m : Shared) (r : Result) : Type 0 where
  pub entry : Entry
  pub at : lookup key m.cache ≡ some entry
  pub result : entry.decision.result ≡ r
  pub unexpired : m.time < entry.decision.expiry

pub look_up-Found :
    (c : Config) (key : Bytes) (m : Shared) (r : Result)
    → look_up c key m ≡ some r
    → Found c key m r
unfolding look_up
look_up-Found c key m r hit = elim (Bool-cases (ltb 0 c.cache_ttl)) [
  | inr off ↦ absurd (ground arith)
  | inl on ↦ elim (Option-cases (lookup key m.cache)) [
    | inl missing ↦ absurd (ground arith)
    | inr (e, at) ↦ elim (Bool-cases (ltb m.time e.decision.expiry)) [
      | inr late ↦ absurd (ground arith)
      | inl early ↦ record {
        entry = e;
        at = at;
        result = ground arith;
        unexpired = ltb→lt _ _ early;
      }
    ]
  ]
]

still_current :
    (c : Config) (key : Bytes) (m : Shared) (e : Entry) (took : ℕ)
    → EntrySound c m key e
    → m.time < e.decision.expiry
    → e.stored_at ≤ e.read_at + took
    → m.updated_at + took + c.cache_ttl ≤ m.time
    → e.version ≡ m.version
still_current c key m e took sound unexpired quick settled =
    let until = sound.expiry in
    let newest = sound.read.version in
    elim (Bool-cases (ltb e.version m.version)) [
      | inl old ↦ let read = sound.read.before_update (ltb→lt _ _ old) in absurd (omega arith)
      | inr current ↦ let least = ltb-false→le _ _ current in omega arith
    ]

-- A query with the given cache key on which the decision is OPA's under the store.
pub record IsCurrent (c : Config) (d : DataStore) (key : Bytes) (r : Result) : Type 0 where
  pub query : QueryInfo
  pub same_key : decision_cache_key query ≡ key
  pub decided : DecidedUnder c d query r

-- In every interleaving of evaluations, changes of the store and the passing of time, from a server that
-- starts with an empty cache: once the cache TTL, and the time that the evaluation behind the entry of
-- this key took at most from its reads to its cache write, have passed since the last change of the
-- store, a cache hit is OPA's answer, under the store as it is now, to a query with the same cache key.
pub look_up-IsCurrent :
    (c : Config) (store : DataStore) (now : ℕ) (s : System)
    → Reach c store now s
    → (key : Bytes) (r : Result) (took : ℕ) → look_up c key s.shared ≡ some r
    → ((e : Entry) → lookup key s.shared.cache ≡ some e → e.stored_at ≤ e.read_at + took)
    → s.shared.updated_at + took + c.cache_ttl ≤ s.shared.time
    → IsCurrent c s.shared.store key r
look_up-IsCurrent c store now s reach key r took hit bound settled =
    let found = look_up-Found c key s.shared r hit in
    let e = found.entry in
    let sound = (Reach-IsSound c reach).cached key e found.at in
    let quick : e.stored_at ≤ e.read_at + took = bound e found.at in
    let same_version : e.version ≡ s.shared.version =
      still_current c key s.shared e took sound found.unexpired quick settled in
    record {
      query = sound.query;
      same_key = sound.same_key;
      decided =
          subst (DecidedUnder c s.shared.store sound.query) found.result
            (sound.current same_version);
    }
