-- ===== src/Server/Concurrent/Alone.antt =====
-- The steps of an evaluation that nothing interrupts and `compositeEvaluator.Evaluate` as one function of
-- its state (main.go).
use gql_firewall.Base.{
  ℕ, zero, suc, Bytes, Bool, true, false, Option, none, some, lookup, insert, lookup-insert,
  bytes_equal_iff, ◌≡◌, ◌∙◌, inl, inr, refl, sym, ap, subst, Bool-cases, ltb, if◌then◌else◌, arith,
}
use gql_firewall.Metrics.{record_block}
use gql_firewall.Opa.Json.{Result}
use gql_firewall.Opa.Input.{build_input}
use gql_firewall.Parser.Info.{QueryInfo}
use gql_firewall.Server.CacheKey.{decision_cache_key}
use gql_firewall.Server.Evaluate.{
  Config, CachedDecision, State, fresh, cache_lookup, cache_store, answer_cached, answer_error,
  enforce, evaluate_opa, evaluate_policy, schema_refusal, evaluate, deny, allow, unavailable,
}
use gql_firewall.Server.Evaluate.History.{
  final_result, enforce-result, answer_error-cache, answer_cached-cache,
}
use gql_firewall.Server.Concurrent.{
  Entry, Shared, Stage, entered, returned, input_of, enter, fresh_entry, look_up, after_lookup,
  after_opa, store_entry, advance,
}

-- `n` accesses one after the other.
unfoldable pub advances : Config → ℕ → Stage × Shared → Stage × Shared
advances c zero p = p
advances c (suc n) p = advances c n (advance c p.0 p.1)

abbrev pub decision_of : Option Entry → Option CachedDecision
decision_of none = none
decision_of (some e) = some e.decision

-- The cache of the one is the cache of the other.
abbrev pub Agree : Shared → State → Type 0
Agree m s = (key : Bytes) → lookup key s.cache ≡ decision_of (lookup key m.cache)

-- The configuration with the store as it is.
abbrev pub with_store : Config → Shared → Config
with_store c m = record c { opa_store = some m.store }

fresh-Agree :
    (c : Config) (now : ℕ) (e : Option Entry) → fresh now (decision_of e) ≡ fresh_entry c now e
unfolding fresh
fresh-Agree c now none = refl
fresh-Agree c now (some e) = refl

look_up-Agree :
    (c : Config) (key : Bytes) (m : Shared) (s : State)
    → Agree m s
    → cache_lookup c.cache_ttl key m.time s ≡ look_up c key m
unfolding cache_lookup look_up
look_up-Agree c key m s agree =
    ap (λ o. if ltb 0 c.cache_ttl then o else none)
      (ap (fresh m.time) (agree key) ∙ fresh-Agree c m.time (lookup key m.cache))

insert-Agree :
    (key : Bytes) (e : Entry) (m : Shared) (s : State)
    → Agree m s
    → Agree
        (record m { cache = insert key e m.cache })
        (record s { cache = insert key e.decision s.cache })
insert-Agree key e m s agree j = ground (
  arith,
  lookup-insert key j e m.cache,
  lookup-insert key j e.decision s.cache,
  agree j,
  bytes_equal_iff key j,
)

store-Agree :
    (c : Config) (info : QueryInfo) (r : Result) (v t : ℕ) (m : Shared) (s : State)
    → Agree m s
    → Agree
        (store_entry c info r v t m)
        (cache_store c.cache_ttl (decision_cache_key info) r m.time s)
unfolding store_entry cache_store
store-Agree c info r v t m s agree = elim (Bool-cases (ltb 0 c.cache_ttl)) [
  | inr off ↦ rw off agree
  | inl on ↦ rw on (insert-Agree (decision_cache_key info) _ m s agree)
]

answer_error-result :
    (b : Bool) (s : State) → (answer_error b s).0 ≡ (if b then deny unavailable else allow)
unfolding answer_error
answer_error-result true s = refl
answer_error-result false s = refl

answer_cached-result :
    (c : Config) (r : Result) (s : State)
    → (answer_cached c.opa_audit_only r s).0 ≡ final_result c r
unfolding answer_cached
answer_cached-result c r s = ground arith

-- Where an evaluation has returned with what the sequential model gives.
pub record Ends (p : Stage × Shared) (q : Result × State) : Type 0 where
  pub result : p.0 ≡ returned q.0
  pub agree : Agree p.1 q.1

module _ (c : Config) (info : QueryInfo) (m : Shared) (s : State) (agree : Agree m s) where
  same_cache-Agree : (s' : State) → s'.cache ≡ s.cache → Agree m s'
  same_cache-Agree s' same key = ap (lookup key) same ∙ agree key

  after_opa-Ends :
      (v t : ℕ) (o : Option Result)
      → Ends
          (advances c 1 (after_opa c info v t o, m))
          (evaluate_opa (with_store c m) m.time (decision_cache_key info) o s)
  unfolding advances advance evaluate_opa
  after_opa-Ends v t none = record {
    result = ap returned (sym (answer_error-result c.opa_fail_closed s));
    agree =
        same_cache-Agree (answer_error c.opa_fail_closed s).1
          (answer_error-cache c.opa_fail_closed s);
  }
  after_opa-Ends v t (some r) = record {
    result = ap returned (sym (enforce-result (with_store c m) r s).0);
    agree =
        subst
          (λ f. Agree (store_entry c info (final_result c r) v t m) (
            cache_store c.cache_ttl (decision_cache_key info) f m.time
              (enforce c.opa_audit_only r s).1))
          (sym (enforce-result (with_store c m) r s).0)
          (store-Agree c info (final_result c r) v t m (enforce c.opa_audit_only r s).1 (
            same_cache-Agree (enforce c.opa_audit_only r s).1
              (enforce-result (with_store c m) r s).1));
  }

  after_lookup-Ends :
      (v t : ℕ) (o : Option Result)
      → Ends
          (advances c 2
            (after_lookup c info (build_input c.unmarshal info (some m.store)) v t o, m))
          (elim o [
            | some cached ↦ answer_cached c.opa_audit_only cached s
            | none ↦
                evaluate_opa
                  (with_store c m)
                  m.time
                  (decision_cache_key info)
                  (c.opa (build_input c.unmarshal info (some m.store)))
                  s
          ])
  unfolding advances advance
  after_lookup-Ends v t none =
      after_opa-Ends v t (c.opa (build_input c.unmarshal info (some m.store)))
  after_lookup-Ends v t (some r) = record {
    result = ap returned (sym (answer_cached-result c r s));
    agree =
        same_cache-Agree (answer_cached c.opa_audit_only r s).1
          (answer_cached-cache c.opa_audit_only r s);
  }

  policy-Ends :
      Ends (advances c 5 (entered info, m)) (evaluate_policy (with_store c m) m.time m.time info s)
  unfolding advances advance evaluate_policy input_of build_input
  policy-Ends =
      subst
        (λ o.
          Ends
            (advances c 2 (
              after_lookup c info (build_input c.unmarshal info (some m.store)) m.version m.time
                  (look_up c (decision_cache_key info) m),
              m,
            ))
            (elim o [
              | some cached ↦ answer_cached c.opa_audit_only cached s
              | none ↦
                  evaluate_opa (with_store c m) m.time (decision_cache_key info)
                    (c.opa (build_input c.unmarshal info (some m.store))) s
            ]))
        (sym (look_up-Agree c (decision_cache_key info) m s agree))
        (after_lookup-Ends m.version m.time (look_up c (decision_cache_key info) m))

  refusal-Ends :
      (o : Option Bytes)
      → Ends
          (advances c 5 (elim o [ some reason ↦ returned (deny reason) | none ↦ entered info ], m))
          (elim o [
            | some reason ↦ (deny reason, record s { events = record_block reason s.events })
            | none ↦ evaluate_policy (with_store c m) m.time m.time info s
          ])
  unfolding advances advance
  refusal-Ends none = policy-Ends
  refusal-Ends (some reason) = record { result = refl; agree = agree }

-- An evaluation whose accesses follow one another without any of another thread is the evaluation of the
-- sequential model: five accesses after its start it has returned the same result, and if the caches
-- agreed before, they agree afterwards.
pub advances-evaluate :
    (c : Config) (m : Shared) (info : QueryInfo) (s : State)
    → Agree m s
    → Ends (advances c 5 (enter c info, m)) (evaluate (with_store c m) m.time m.time info s)
unfolding enter evaluate schema_refusal
advances-evaluate c m info s agree = refusal-Ends c info m s agree (schema_refusal c info)
