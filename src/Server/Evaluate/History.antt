-- ===== src/Server/Evaluate/History.antt =====
-- The cache of compositeEvaluator (main.go) over a sequence of evaluations: what it answers was decided
-- by OPA for an earlier query with the same cache key, less than the TTL ago.
use gql_firewall.Base.{
  ℕ, ◌+◌, ◌<◌, Bytes, Bool, List, [], ◌∷◌, some, ◌≡◌, ◌⊎◌, inl, inr, refl, ltb, if◌then◌else◌,
  Option-cases, Bool-cases, arith, lookup, insert, lookup-insert, bytes_equal, bytes_equal_iff, In,
}
use gql_firewall.Opa.Json.{Result}
use gql_firewall.Parser.Info.{QueryInfo}
use gql_firewall.Server.CacheKey.{decision_cache_key}
use gql_firewall.Server.Evaluate.{
  Config, State, CachedDecision, fresh, cache_lookup, cache_store, allow, answer_cached,
  answer_error, enforce, evaluate_opa, evaluate_policy, schema_refusal, evaluate,
}
use gql_firewall.Server.Evaluate.Outcomes.{asked, cached_at}

-- A call of `Evaluate`, with the two times at which it reads the clock.
pub record Call : Type 0 where
  pub info : QueryInfo
  pub now : ℕ
  pub later : ℕ

-- The decision that `Evaluate` makes of an answer of OPA.
abbrev pub final_result : Config → Result → Result
final_result c r = if r.allowed then r else if c.opa_audit_only then allow else r

-- The cached decision `d` was made by one of the calls, about a query with this key.
pub record MadeBy (c : Config) (calls : List Call) (key : Bytes) (d : CachedDecision) : Type 0 where
  pub call : Call
  pub listed : In call calls
  pub same_key : decision_cache_key call.info ≡ key
  pub answer : Result
  pub answered : c.opa (asked c call.info) ≡ some answer
  pub result : d.result ≡ final_result c answer
  pub expiry : d.expiry ≡ call.later + c.cache_ttl

abbrev pub IsGenuine : Config → List Call → State → Type 0
IsGenuine c calls s =
    (key : Bytes) (d : CachedDecision) → lookup key s.cache ≡ some d → MadeBy c calls key d

MadeBy-cons :
    {c : Config} {calls : List Call} {key : Bytes} {d : CachedDecision} (k : Call)
    → MadeBy c calls key d
    → MadeBy c (k ∷ calls) key d
MadeBy-cons k m = record {
  call = m.call;
  listed = inr m.listed;
  same_key = m.same_key;
  answer = m.answer;
  answered = m.answered;
  result = m.result;
  expiry = m.expiry;
}

-- The state after a sequence of calls, the latest first.
unfoldable pub run : Config → List Call → State → State
run c [] s = s
run c (k ∷ calls) s = (evaluate c k.now k.later k.info (run c calls s)).1

pub enforce-result :
    (c : Config) (r : Result) (s : State)
    → ((enforce c.opa_audit_only r s).0 ≡ final_result c r)
      × ((enforce c.opa_audit_only r s).1.cache ≡ s.cache)
unfolding enforce
enforce-result c r s = ground arith

pub answer_error-cache : (b : Bool) (s : State) → (answer_error b s).1.cache ≡ s.cache
unfolding answer_error
answer_error-cache b s = ground arith

pub answer_cached-cache :
    (b : Bool) (r : Result) (s : State) → (answer_cached b r s).1.cache ≡ s.cache
unfolding answer_cached
answer_cached-cache b r s = ground arith

-- An evaluation changes the cache only by the decision that it has just taken.
abbrev pub CacheStep : Config → Call → State → State → Type 0
CacheStep c k s t =
    (t.cache ≡ s.cache)
    ⊎ ((r : Result) × (c.opa (asked c k.info) ≡ some r)
        × (t.cache
            ≡ insert (decision_cache_key k.info)
                (record { result = final_result c r; expiry = k.later + c.cache_ttl }) s.cache))

evaluate_opa-cache :
    (c : Config) (k : Call) (s : State)
    → CacheStep c k s
        (evaluate_opa c k.later (decision_cache_key k.info) (c.opa (asked c k.info)) s).1
unfolding evaluate_opa cache_store
evaluate_opa-cache c k s = elim (Option-cases (c.opa (asked c k.info))) [
  | inl error ↦ inl (rw (error, evaluate_opa) (answer_error-cache c.opa_fail_closed s))
  | inr (r, answer) ↦ elim (Bool-cases (ltb 0 c.cache_ttl)) [
    | inl on ↦ inr (r, answer, rw (answer, evaluate_opa, on) (ground (arith, enforce-result c r s)))
    | inr off ↦ inl (rw (answer, evaluate_opa, off) (enforce-result c r s).1)
  ]
]

evaluate_policy-cache :
    (c : Config) (k : Call) (s : State)
    → CacheStep c k s (evaluate_policy c k.now k.later k.info s).1
unfolding evaluate_policy
evaluate_policy-cache c k s = elim (Option-cases (cached_at c k.now k.info s)) [
  | inr (r, hit) ↦ inl (rw (hit, evaluate_policy) (answer_cached-cache c.opa_audit_only r s))
  | inl miss ↦ rw (miss, evaluate_policy) (evaluate_opa-cache c k s)
]

pub evaluate-cache :
    (c : Config) (k : Call) (s : State) → CacheStep c k s (evaluate c k.now k.later k.info s).1
unfolding evaluate
evaluate-cache c k s = elim (Option-cases (schema_refusal c k.info)) [
  | inr (reason, bad) ↦ inl (rw (bad, evaluate))
  | inl fine ↦ rw (fine, evaluate) (evaluate_policy-cache c k s)
]

evaluate-IsGenuine :
    (c : Config) (k : Call) (calls : List Call) (s : State)
    → IsGenuine c calls s
    → IsGenuine c (k ∷ calls) (evaluate c k.now k.later k.info s).1
evaluate-IsGenuine c k calls s old = λ key d h. elim (evaluate-cache c k s) [
  | inl same ↦ MadeBy-cons k (old key d (rw same at h))
  | inr (r, answer, added) ↦ elim (Bool-cases (bytes_equal (decision_cache_key k.info) key)) [
    | inr other ↦ MadeBy-cons k (old key d (rw other at (rw lookup-insert at (rw added at h))))
    | inl same ↦
        let e : some (record { result = final_result c r; expiry = k.later + c.cache_ttl })
            ≡ some d =
          rw same at (rw lookup-insert at (rw added at h)) in
        record {
          call = k;
          listed = inl refl;
          same_key = (bytes_equal_iff (decision_cache_key k.info) key).0 same;
          answer = r;
          answered = answer;
          result = ground arith;
          expiry = ground arith;
        }
  ]
]

-- After any sequence of evaluations from an empty cache, every cached decision is the one that one of
-- these evaluations took on the answer of OPA to its own query, with the same cache key and with an
-- expiry of the TTL after that evaluation.
pub run-IsGenuine :
    (c : Config) (calls : List Call) (s : State) → s.cache ≡ [] → IsGenuine c calls (run c calls s)
unfolding run
run-IsGenuine c [] s empty = λ key d h. absurd (unfold lookup in ground arith)
run-IsGenuine c (k ∷ calls) s empty =
    evaluate-IsGenuine c k calls (run c calls s) (run-IsGenuine c calls s empty)

-- A query that is answered from the cache at time `now`, after any sequence of evaluations from an empty
-- cache, gets the decision that one of them took on the answer of OPA to a query with the same cache
-- key, at a time that is less than the TTL before `now`.
pub cached-MadeBy :
    (c : Config) (calls : List Call) (s : State) (info : QueryInfo) (now : ℕ) (r : Result)
    → s.cache ≡ []
    → cached_at c now info (run c calls s) ≡ some r
    → (d : CachedDecision) × MadeBy c calls (decision_cache_key info) d
      × (d.result ≡ r)
      × (now < d.expiry)
unfolding cache_lookup fresh
cached-MadeBy c calls s info now r empty h =
    elim (Option-cases (lookup (decision_cache_key info) (run c calls s).cache)) [
      | inl missing ↦ absurd (ground arith)
      | inr (d, found) ↦ (
        d,
        run-IsGenuine c calls s empty (decision_cache_key info) d found,
        ground arith,
        ground arith,
      )
    ]
