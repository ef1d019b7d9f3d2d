-- ===== src/Server/Evaluate.antt =====
-- compositeEvaluator.Evaluate (main.go): schema validation, then the OPA decision with its cache. The
-- configuration is set once in `main`; the cache and the events are the state. `now` is the clock at
-- the cache lookup and `later` the clock at the cache write.
pub mod Outcomes
pub mod History
pub mod Sharing
pub mod Growth
pub mod Vouched
use gql_firewall.Base.{
  ◌∷◌, ◌++◌, ℕ, ◌+◌, Bytes, Bool, true, false, not, ◌&&◌, [], Option, none, some, Map, lookup,
  insert, ltb, if◌then◌else◌, codes,
}
use gql_firewall.Metrics.{Events, record_block, record_opa, record_opa_audit_block}
use gql_firewall.Opa.Json.{Object, Result}
use gql_firewall.Opa.Store.{DataStore}
use gql_firewall.Opa.Input.{Input, build_input}
use gql_firewall.Parser.Info.{QueryInfo}
use gql_firewall.Parser.Schema.{SchemaInfo, SchemaLibrary, validate}
use gql_firewall.Server.CacheKey.{decision_cache_key}

-- The fields of compositeEvaluator that do not change, with what its calls depend on: `opa` is the
-- evaluator's answer (`none` is an error), `unmarshal` decodes the request variables.
pub record Config : Type 1 where
  pub library : SchemaLibrary
  pub unmarshal : Bytes → Option Object
  pub opa : Input → Option Result
  pub opa_store : Option DataStore
  pub schema : Option SchemaInfo
  pub cache_ttl : ℕ
  pub opa_fail_closed : Bool
  pub opa_audit_only : Bool

pub record CachedDecision : Type 0 where
  pub result : Result
  pub expiry : ℕ

pub record State : Type 0 where
  pub cache : Map CachedDecision
  pub events : Events

abbrev pub allow : Result
allow = record { allowed = true; reason = [] }

abbrev pub deny : Bytes → Result
deny reason = record { allowed = false; reason = reason }

-- The text has an em dash, three bytes in UTF-8.
abbrev pub unavailable : Bytes
unavailable = codes "OPA unavailable " ++ (0xe2 ∷ 0x80 ∷ 0x94 ∷ codes " request blocked for safety")

-- A cached decision that has not expired.
unfoldable pub fresh : ℕ → Option CachedDecision → Option Result
fresh now none = none
fresh now (some d) = if ltb now d.expiry then some d.result else none

-- `if cacheTTL > 0 { if cached, ok := c.cache[key]; ok && now.Before(cached.expiry) ... }`
unfoldable pub cache_lookup : ℕ → Bytes → ℕ → State → Option Result
unfolding fresh
cache_lookup ttl key now s = if ltb 0 ttl then fresh now (lookup key s.cache) else none

unfoldable pub cache_store : ℕ → Bytes → Result → ℕ → State → State
cache_store ttl key result later s =
    if ltb 0 ttl
    then record s { cache = insert key (record { result = result; expiry = later + ttl }) s.cache }
    else s

-- A cache hit; in audit-only mode a denial is logged and let through.
unfoldable pub answer_cached : Bool → Result → State → Result × State
answer_cached audit cached s =
    let s' = record s { events = record_opa (codes "cache_hit") s.events } in
    if audit && not cached.allowed
    then (allow, record s' { events = record_opa_audit_block cached.reason s'.events })
    else (cached, s')

-- `if opaFailClosed`
unfoldable pub answer_error : Bool → State → Result × State
answer_error fail_closed s =
    let s' = record s { events = record_opa (codes "error") s.events } in
    if fail_closed then (deny unavailable, s') else (allow, s')

-- The decision of OPA, as it is returned and cached, with its events.
unfoldable pub enforce : Bool → Result → State → Result × State
enforce audit result s =
    let s' = record s { events = record_opa (codes "evaluated") s.events } in
    if result.allowed
    then (result, s')
    else if audit
    then (allow, record s' { events = record_opa_audit_block result.reason s'.events })
    else (result, record s' { events = record_block result.reason s'.events })

-- The evaluation after a cache miss.
unfoldable pub evaluate_opa : Config → ℕ → Bytes → Option Result → State → Result × State
unfolding answer_error enforce cache_store
evaluate_opa c later key none s = answer_error c.opa_fail_closed s
evaluate_opa c later key (some result) s =
    let (final, s') = enforce c.opa_audit_only result s in
    (final, cache_store c.cache_ttl key final later s')

-- Sections 2 and 3 of `Evaluate`.
unfoldable pub evaluate_policy : Config → ℕ → ℕ → QueryInfo → State → Result × State
unfolding cache_lookup answer_cached evaluate_opa
evaluate_policy c now later info s =
    elim (cache_lookup c.cache_ttl (decision_cache_key info) now s) [
      | some cached ↦ answer_cached c.opa_audit_only cached s
      | none ↦
          evaluate_opa c later (decision_cache_key info)
            (c.opa (build_input c.unmarshal info c.opa_store)) s
    ]

-- The verdict of the schema: the reason of a refusal.
unfoldable pub schema_refusal : Config → QueryInfo → Option Bytes
schema_refusal c info = elim c.schema [
  | none ↦ none
  | some schema ↦
      let (allowed, reason) = validate c.library schema info in
      if allowed then none else some reason
]

-- `Evaluate`. It never returns an error.
unfoldable pub evaluate : Config → ℕ → ℕ → QueryInfo → State → Result × State
unfolding schema_refusal evaluate_policy
evaluate c now later info s = elim (schema_refusal c info) [
  | some reason ↦ (deny reason, record s { events = record_block reason s.events })
  | none ↦ evaluate_policy c now later info s
]
