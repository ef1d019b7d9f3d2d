-- ===== src/Server/Evaluate/Vouched.antt =====
-- What stands behind a decision of compositeEvaluator (main.go) that allows a query.
use gql_firewall.Base.{
  ℕ, ◌+◌, ◌<◌, ◌⊎◌, ltb, ltb→lt, Bytes, true, false, none, some, Map, lookup, lookup-insert,
  bytes_equal, bytes_equal_iff, ◌≡◌, ◌∙◌, inl, inr, sym, Bool-cases, Option-cases, arith,
}
use gql_firewall.Opa.Json.{Result}
use gql_firewall.Opa.Store.{DataStore}
use gql_firewall.Parser.Info.{QueryInfo}
use gql_firewall.Server.CacheKey.{decision_cache_key}
use gql_firewall.Server.Evaluate.{
  Config, CachedDecision, State, fresh, cache_lookup, schema_refusal, evaluate,
}
use gql_firewall.Server.Evaluate.Outcomes.{asked, cached_at, evaluate_iff, evaluate_fail_closed}
use gql_firewall.Server.Evaluate.History.{Call, final_result, evaluate-cache}

-- The configuration with the store as it is.
abbrev pub at_store : DataStore → Config → Config
at_store store c = record c { opa_store = some store }

-- OPA answers `r` to a query with this cache key, under a store with which it was asked about the query:
-- `H` tells which queries were asked with which stores.
pub record Answered (c : Config) (H : DataStore → QueryInfo → Type 0) (key : Bytes) (r : Result)
    : Type 0 where
  pub query : QueryInfo
  pub same_key : decision_cache_key query ≡ key
  pub store : DataStore
  pub had : H store query
  pub answer : c.opa (asked (at_store store c) query) ≡ some r

-- Every cached decision is what was made of such an answer.
abbrev pub IsVouched : Config → (DataStore → QueryInfo → Type 0) → Map CachedDecision → Type 0
IsVouched c H cache =
    (key : Bytes) (d : CachedDecision)
    → lookup key cache ≡ some d
    → (r : Result) × Answered c H key r × (d.result ≡ final_result c r)

pub evaluate-IsVouched :
    (c : Config) (H : DataStore → QueryInfo → Type 0) (store : DataStore) (k : Call) (s : State)
    → H store k.info
    → IsVouched c H s.cache
    → IsVouched c H (evaluate (at_store store c) k.now k.later k.info s).1.cache
evaluate-IsVouched c H store k s had old = λ key d h. elim (evaluate-cache (at_store store c) k s) [
  | inl same ↦ old key d (rw same at h)
  | inr (r, answer, added) ↦ elim (Bool-cases (bytes_equal (decision_cache_key k.info) key)) [
    | inr other ↦ old key d (rw other at (rw lookup-insert at (rw added at h)))
    | inl same ↦
        let e : some (record { result = final_result c r; expiry = k.later + c.cache_ttl })
            ≡ some d =
          rw same at (rw lookup-insert at (rw added at h)) in
        (
          r,
          record {
            query = k.info;
            same_key = (bytes_equal_iff (decision_cache_key k.info) key).0 same;
            store = store;
            had = had;
            answer = answer;
          },
          ground arith,
        )
  ]
]

-- OPA allowed the query under the store, or, with caching on, a query with the same cache key that was
-- asked, under the store with which it was.
unfoldable pub OpaAllows :
    Config → (DataStore → QueryInfo → Type 0) → DataStore → QueryInfo → Type 0
OpaAllows c H store info =
    ((r : Result) × (c.opa (asked (at_store store c) info) ≡ some r) × (r.allowed ≡ true))
    ⊎ ((0 < c.cache_ttl)
        × ((r : Result) × Answered c H (decision_cache_key info) r × (r.allowed ≡ true)))

final_result-allowed :
    (c : Config) (r : Result)
    → c.opa_audit_only ≡ false
    → (final_result c r).allowed ≡ true
    → r.allowed ≡ true
final_result-allowed c r enforced h = ground arith

-- What is answered from the cache stands there.
cached_at-lookup :
    (c : Config) (now : ℕ) (info : QueryInfo) (s : State) (r : Result)
    → cached_at c now info s ≡ some r
    → (d : CachedDecision) × (lookup (decision_cache_key info) s.cache ≡ some d) × (d.result ≡ r)
unfolding cache_lookup fresh
cached_at-lookup c now info s r h = elim (Option-cases (lookup (decision_cache_key info) s.cache)) [
  | inl missing ↦ absurd (ground arith)
  | inr (d, found) ↦ (d, found, ground arith)
]

cached_at-ttl :
    (c : Config) (now : ℕ) (info : QueryInfo) (s : State) (r : Result)
    → cached_at c now info s ≡ some r
    → 0 < c.cache_ttl
unfolding cache_lookup
cached_at-ttl c now info s r h = elim (Bool-cases (ltb 0 c.cache_ttl)) [
  | inl on ↦ ltb→lt _ _ on
  | inr off ↦ absurd (ground arith)
]

-- The schema accepts the query itself, and OPA allowed it or one with the same cache key.
abbrev pub IsAllowed : Config → (DataStore → QueryInfo → Type 0) → DataStore → QueryInfo → Type 0
IsAllowed c H store info = (schema_refusal c info ≡ none) × OpaAllows c H store info

module _ (c : Config) (H : DataStore → QueryInfo → Type 0) (store : DataStore)
    (closed : c.opa_fail_closed ≡ true) (enforced : c.opa_audit_only ≡ false) where
  evaluate-OpaAllows :
      (now later : ℕ) (info : QueryInfo) (s : State)
      → IsVouched c H s.cache
      → (evaluate (at_store store c) now later info s).0.allowed ≡ true
      → OpaAllows c H store info
  unfolding OpaAllows
  evaluate-OpaAllows now later info s vouched h =
      let (r, yes_, from) =
        evaluate_fail_closed (at_store store c) now later info s closed enforced h in
      elim from [
        | inr answer ↦ inl (r, answer, yes_)
        | inl hit ↦
            let (d, found, same) = cached_at-lookup (at_store store c) now info s r hit in
            let (r', answered, made) = vouched (decision_cache_key info) d found in
            inr (
              cached_at-ttl (at_store store c) now info s r hit,
              (r', answered, final_result-allowed c r' enforced (rw (sym same ∙ made) at yes_)),
            )
      ]

  pub evaluate-IsAllowed :
      (now later : ℕ) (info : QueryInfo) (s : State)
      → IsVouched c H s.cache
      → (evaluate (at_store store c) now later info s).0.allowed ≡ true
      → IsAllowed c H store info
  unfolding schema_refusal
  evaluate-IsAllowed now later info s vouched h = (
    ((evaluate_iff (at_store store c) now later info s).0 h).0,
    evaluate-OpaAllows now later info s vouched h,
  )
