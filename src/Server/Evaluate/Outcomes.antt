-- ===== src/Server/Evaluate/Outcomes.antt =====
-- When compositeEvaluator.Evaluate (main.go) lets a query through.
use gql_firewall.Base.{
  ℕ, true, false, Option, none, some, ◌≡◌, ◌↔◌, ◌⊎◌, inl, inr, Option-cases, arith,
}
use gql_firewall.Opa.Json.{Result}
use gql_firewall.Opa.Input.{Input, build_input}
use gql_firewall.Parser.Info.{QueryInfo}
use gql_firewall.Server.CacheKey.{decision_cache_key}
use gql_firewall.Server.Evaluate.{
  Config, State, cache_lookup, answer_cached, answer_error, enforce, evaluate_opa, evaluate_policy,
  schema_refusal, evaluate,
}

-- What OPA is asked about a query.
abbrev pub asked : Config → QueryInfo → Input
asked c info = build_input c.unmarshal info c.opa_store

abbrev pub cached_at : Config → ℕ → QueryInfo → State → Option Result
cached_at c now info s = cache_lookup c.cache_ttl (decision_cache_key info) now s

module _ (c : Config) (now : ℕ) (info : QueryInfo) (s : State) where
  -- The reasons for which the policy lets a query through.
  pub data PolicyAllows : Type 0 where
    cached :
        (r : Result)
        → cached_at c now info s ≡ some r
        → (r.allowed ≡ true) ⊎ (c.opa_audit_only ≡ true)
        → PolicyAllows
    decided :
        (r : Result)
        → cached_at c now info s ≡ none
        → c.opa (asked c info) ≡ some r
        → (r.allowed ≡ true) ⊎ (c.opa_audit_only ≡ true)
        → PolicyAllows
    failed_open :
        cached_at c now info s ≡ none
        → c.opa (asked c info) ≡ none
        → c.opa_fail_closed ≡ false
        → PolicyAllows

  answer_cached_iff :
      (r : Result)
      → ((answer_cached c.opa_audit_only r s).0.allowed ≡ true)
        ↔ ((r.allowed ≡ true) ⊎ (c.opa_audit_only ≡ true))
  unfolding answer_cached
  answer_cached_iff r = ground arith

  enforce_iff :
      (r : Result)
      → ((enforce c.opa_audit_only r s).0.allowed ≡ true)
        ↔ ((r.allowed ≡ true) ⊎ (c.opa_audit_only ≡ true))
  unfolding enforce
  enforce_iff r = ground arith

  answer_error_iff :
      ((answer_error c.opa_fail_closed s).0.allowed ≡ true) ↔ (c.opa_fail_closed ≡ false)
  unfolding answer_error
  answer_error_iff = ground arith

  policy_sound : (later : ℕ) → (evaluate_policy c now later info s).0.allowed ≡ true → PolicyAllows
  unfolding evaluate_policy evaluate_opa
  policy_sound later h = elim (Option-cases (cached_at c now info s)) [
    | inr (r, hit) ↦ cached r hit ((answer_cached_iff r).0 (rw (hit, evaluate_policy) at h))
    | inl miss ↦ elim (Option-cases (c.opa (asked c info))) [
      | inr (r, answer) ↦
          decided r miss answer ((enforce_iff r).0 (rw (miss, answer, evaluate_policy) at h))
      | inl error ↦
          failed_open miss error (answer_error_iff.0 (rw (miss, error, evaluate_policy) at h))
    ]
  ]

  policy_complete :
      (later : ℕ) → PolicyAllows → (evaluate_policy c now later info s).0.allowed ≡ true
  unfolding evaluate_policy evaluate_opa
  policy_complete later (cached r hit h) = rw (hit, evaluate_policy) ((answer_cached_iff r).1 h)
  policy_complete later (decided r miss answer h) =
      rw (miss, answer, evaluate_policy) ((enforce_iff r).1 h)
  policy_complete later (failed_open miss error h) =
      rw (miss, error, evaluate_policy) (answer_error_iff.1 h)

-- A query is let through exactly when the schema, if there is one, accepts it and one of these holds:
-- an unexpired cached decision, or without one the answer of OPA, allows it or audit-only mode is on;
-- or there is no such decision, OPA fails and the evaluator does not fail closed.
pub evaluate_iff :
    (c : Config) (now later : ℕ) (info : QueryInfo) (s : State)
    → ((evaluate c now later info s).0.allowed ≡ true)
      ↔ ((schema_refusal c info ≡ none) × PolicyAllows c now info s)
unfolding evaluate
evaluate_iff c now later info s = (there, back)
  where
    there :
        (evaluate c now later info s).0.allowed ≡ true
        → (schema_refusal c info ≡ none) × PolicyAllows c now info s
    there h = elim (Option-cases (schema_refusal c info)) [
      | inl fine ↦ (fine, policy_sound c now info s later (rw (fine, evaluate) at h))
      | inr (reason, bad) ↦ absurd (ground arith)
    ]

    back :
        (schema_refusal c info ≡ none) × PolicyAllows c now info s
        → (evaluate c now later info s).0.allowed ≡ true
    back (fine, h) = rw (fine, evaluate) (policy_complete c now info s later h)

-- With `--opa-fail-closed` and no audit-only mode, a query that is let through was allowed by OPA, now
-- or in an unexpired cached decision: an OPA that fails lets nothing through.
pub evaluate_fail_closed :
    (c : Config) (now later : ℕ) (info : QueryInfo) (s : State)
    → c.opa_fail_closed ≡ true
    → c.opa_audit_only ≡ false
    → (evaluate c now later info s).0.allowed ≡ true
    → (r : Result) × (r.allowed ≡ true)
      × ((cached_at c now info s ≡ some r) ⊎ (c.opa (asked c info) ≡ some r))
evaluate_fail_closed c now later info s closed enforced h =
    from ((evaluate_iff c now later info s).0 h).1
  where
    real : (r : Result) → (r.allowed ≡ true) ⊎ (c.opa_audit_only ≡ true) → r.allowed ≡ true
    real r h = ground arith

    from :
        PolicyAllows c now info s
        → (r : Result) × (r.allowed ≡ true)
          × ((cached_at c now info s ≡ some r) ⊎ (c.opa (asked c info) ≡ some r))
    from (cached r hit a) = (r, real r a, inl hit)
    from (decided r miss answer a) = (r, real r a, inr answer)
    from (failed_open miss error open_) = absurd (ground arith)
