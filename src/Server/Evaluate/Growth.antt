-- ===== src/Server/Evaluate/Growth.antt =====
-- The size of the decision cache of compositeEvaluator (main.go), from which nothing is ever removed.
use gql_firewall.Base.{
  suc, ◌+◌, ◌≤◌, ◌<◌, Bytes, List, [], ◌∷◌, none, some, Map, lookup, insert, length, ◌≡◌, ◌≢◌, ◌∙◌,
  refl, ap, inl, inr, Option-cases, All, In-All, arith,
}
use gql_firewall.Opa.Json.{Result}
use gql_firewall.Server.CacheKey.{decision_cache_key}
use gql_firewall.Server.Evaluate.{
  Config, State, CachedDecision, fresh, cache_lookup, cache_store, evaluate_opa, evaluate_policy,
  schema_refusal, evaluate,
}
use gql_firewall.Server.Evaluate.Outcomes.{asked, cached_at}
use gql_firewall.Server.Evaluate.History.{
  Call, run, evaluate-cache, run-IsGenuine, enforce-result, final_result,
}

module _ {V : Type 0} where
  length-insert_new :
      (k : Bytes) (v : V) (m : Map V) → lookup k m ≡ none → length (insert k v m) ≡ suc (length m)
  unfolding lookup insert
  length-insert_new k v [] h = refl
  length-insert_new k v ((j, w) ∷ m) h = ground (arith, length-insert_new k v m)

  length-insert-le : (k : Bytes) (v : V) (m : Map V) → length m ≤ length (insert k v m)
  unfolding lookup insert
  length-insert-le k v [] = omega arith
  length-insert-le k v ((j, w) ∷ m) = ground (arith, length-insert-le k v m)

-- The cache never gets smaller.
run-length-le :
    (c : Config) (calls : List Call) (s : State) → length s.cache ≤ length (run c calls s).cache
unfolding run
run-length-le c [] s = omega arith
run-length-le c (k ∷ calls) s =
    let before = run-length-le c calls s in
    elim (evaluate-cache c k (run c calls s)) [
      | inl same ↦ rw same before
      | inr (r, answer, added) ↦
          rw added
            (omega (arith, length-insert-le (decision_cache_key k.info) _ (run c calls s).cache))
    ]

-- The call is one that the schema accepts and OPA answers, and no earlier one has its key.
pub record IsNew (c : Config) (k : Call) (calls : List Call) : Type 0 where
  pub accepted : schema_refusal c k.info ≡ none
  pub answer : Result
  pub answered : c.opa (asked c k.info) ≡ some answer
  pub other_keys : All (λ j. decision_cache_key j.info ≢ decision_cache_key k.info) calls

abbrev pub AllNew : Config → List Call → Type 0
AllNew c [] = Unit
AllNew c (k ∷ calls) = IsNew c k calls × AllNew c calls

-- A key that no call has is not in the cache.
run-other_keys :
    (c : Config) (calls : List Call) (s : State) (key : Bytes)
    → s.cache ≡ []
    → All (λ j. decision_cache_key j.info ≢ key) calls
    → lookup key (run c calls s).cache ≡ none
run-other_keys c calls s key empty others = elim (Option-cases (lookup key (run c calls s).cache)) [
  | inl missing ↦ missing
  | inr (d, found) ↦
      let m = run-IsGenuine c calls s empty key d found in
      absurd (In-All (λ j. decision_cache_key j.info ≢ key) calls others m.listed m.same_key)
]

evaluate-inserts :
    (c : Config) (k : Call) (s : State) (r : Result)
    → 0 < c.cache_ttl
    → schema_refusal c k.info ≡ none
    → lookup (decision_cache_key k.info) s.cache ≡ none
    → c.opa (asked c k.info) ≡ some r
    → (evaluate c k.now k.later k.info s).1.cache
      ≡ insert
          (decision_cache_key k.info)
          (record { result = final_result c r; expiry = k.later + c.cache_ttl })
          s.cache
unfolding evaluate evaluate_policy evaluate_opa cache_store cache_lookup fresh
evaluate-inserts c k s r on accepted missing answer =
    let miss : cached_at c k.now k.info s ≡ none = ground arith in
    let run : evaluate c k.now k.later k.info s
        ≡ evaluate_opa c k.later (decision_cache_key k.info) (some r) s =
      rw (accepted, evaluate, miss, evaluate_policy, answer) refl in
    ap (λ (p : Result × State). p.1.cache) run ∙ ground (arith, enforce-result c r s)

-- With caching on, evaluations of queries that all have keys of their own, from an empty cache on, leave
-- one entry each in the cache, if the schema accepts them and OPA answers: also when all entries but the
-- last have expired.
pub run-length :
    (c : Config) (calls : List Call) (s : State)
    → 0 < c.cache_ttl
    → s.cache ≡ []
    → AllNew c calls
    → length (run c calls s).cache ≡ length calls
unfolding run
run-length c [] s on empty new = ap length empty
run-length c (k ∷ calls) s on empty (k_new, new) =
    let before = run-length c calls s on empty new in
    let missing = run-other_keys c calls s (decision_cache_key k.info) empty k_new.other_keys in
    ap (λ (m : Map CachedDecision). length m)
      (evaluate-inserts c k (run c calls s) k_new.answer on k_new.accepted missing k_new.answered)
    ∙ length-insert_new _ _ _ missing
    ∙ ap (λ n. suc n) before
