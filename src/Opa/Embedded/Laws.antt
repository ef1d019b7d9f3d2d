-- ===== src/Opa/Embedded/Laws.antt =====
-- The embedded evaluator (embed.go) is fail-closed: only the value `true` of the allow query lets a
-- request through.
use gql_firewall.Base.{
  sym, ◌∙◌, Bytes, true, false, List, [], ◌∷◌, Option, none, some, ◌≡◌, ◌≢◌, ◌↔◌, refl, is_empty,
  codes, if◌then◌else◌, ◌>>=◌, >>=-eq-some, arith,
}
use gql_firewall.Opa.Json.{Json, null, bool, number, str, array, object, Result}
use gql_firewall.Opa.Input.{Input}
use gql_firewall.Opa.Embedded.{
  store_or_new, compile, RegoResult, Engine, EmbedConfig, first_expression, decide_allow, Embedded,
  new_embedded, embedded_evaluate,
}

decide_allow_iff :
    (v : Option Json) (deny : Option (List RegoResult))
    → ((decide_allow v deny).allowed ≡ true) ↔ (v ≡ some (bool true))
unfolding decide_allow
decide_allow_iff none deny = ground arith
decide_allow_iff (some null) deny = ground arith
decide_allow_iff (some (bool true)) deny = ground arith
decide_allow_iff (some (bool false)) deny = ground arith
decide_allow_iff (some (number n)) deny = ground arith
decide_allow_iff (some (str s)) deny = ground arith
decide_allow_iff (some (array xs)) deny = ground arith
decide_allow_iff (some (object ms)) deny = ground arith

module _ (engine : Engine) where
  -- What an evaluator that was built holds.
  pub record IsReady (e : Embedded engine) : Type 0 where
    pub allow : engine.Prepared
    pub deny : engine.Prepared
    pub has_allow : e.prepared ≡ some allow
    pub has_deny : e.prepared_deny ≡ some deny
    pub compiled_allow : engine.prepare (codes "data.graphql.allow") e.policy ≡ some allow
    pub compiled_deny : engine.prepare (codes "data.graphql.deny") e.policy ≡ some deny

  embedded_evaluate-ready :
      (e : Embedded engine) (input : Input) (ready : IsReady e)
      → embedded_evaluate engine e input ≡ (
          engine.eval ready.allow input >>= λ rs.
          some (decide_allow (first_expression rs) (engine.eval ready.deny input)))
  unfolding embedded_evaluate
  embedded_evaluate-ready e input ready =
      rw (ready.has_allow, ready.has_deny, embedded_evaluate) refl

compile-IsReady :
    (engine : Engine) (start e : Embedded engine)
    → compile engine start ≡ some e
    → IsReady engine e × (e.policy ≡ start.policy)
unfolding compile
compile-IsReady engine start e h =
    let (allow, one, rest) =
      >>=-eq-some (engine.prepare (codes "data.graphql.allow") start.policy) _ h in
    let (deny, two, same) =
      >>=-eq-some (engine.prepare (codes "data.graphql.deny") start.policy) _ rest in
    let p : e.policy ≡ start.policy = ground arith in
    (
      record {
        allow = allow;
        deny = deny;
        has_allow = ground arith;
        has_deny = ground arith;
        compiled_allow = rw p one;
        compiled_deny = rw p two;
      },
      p,
    )

past_guard :
    {A : Type 0} (s : Bytes) (m : Option A) {a : A}
    → (if is_empty s then none else m) ≡ some a
    → (s ≢ []) × (m ≡ some a)
past_guard [] m h = cc
past_guard (c ∷ s) m h = ((λ e. ground arith), h)

-- An evaluator that NewEmbedded returns holds both queries, compiled from the policy it was given.
pub new_embedded-IsReady :
    (engine : Engine) (cfg : EmbedConfig) (e : Embedded engine)
    → new_embedded engine cfg ≡ some e
    → IsReady engine e × (e.policy ≡ cfg.policy) × (cfg.policy ≢ [])
unfolding new_embedded
new_embedded-IsReady engine cfg e h =
    let start : Embedded engine = record {
      prepared = none;
      prepared_deny = none;
      store = store_or_new engine cfg.store;
      policy = cfg.policy;
    } in
    let (filled, made) = past_guard cfg.policy (compile engine start) h in
    let (ready, same) = compile-IsReady engine start e made in (ready, same, filled)

-- A ready evaluator allows a query exactly when the allow query evaluates without error to a result
-- whose first expression is the value `true`.
pub embedded_evaluate_iff :
    (engine : Engine) (e : Embedded engine) (input : Input) (ready : IsReady engine e)
    → ((r : Result) × (embedded_evaluate engine e input ≡ some r) × (r.allowed ≡ true)) ↔ (
        (rs : List RegoResult) × (engine.eval ready.allow input ≡ some rs)
        × (first_expression rs ≡ some (bool true)))
embedded_evaluate_iff engine e input ready = (there, back)
  where
    there :
        (r : Result) × (embedded_evaluate engine e input ≡ some r) × (r.allowed ≡ true)
        → (rs : List RegoResult) × (engine.eval ready.allow input ≡ some rs)
          × (first_expression rs ≡ some (bool true))
    there (r, run, allowed) =
        let (rs, evaluated, made) =
          >>=-eq-some _ _ (sym (embedded_evaluate-ready engine e input ready) ∙ run) in
        let e' : decide_allow (first_expression rs) (engine.eval ready.deny input) ≡ r =
          ground arith in
        (
          rs,
          evaluated,
          (decide_allow_iff (first_expression rs) (engine.eval ready.deny input)).0 (rw e' allowed),
        )

    back :
        (rs : List RegoResult) × (engine.eval ready.allow input ≡ some rs)
          × (first_expression rs ≡ some (bool true))
        → (r : Result) × (embedded_evaluate engine e input ≡ some r) × (r.allowed ≡ true)
    back (rs, evaluated, first) = (
      decide_allow (first_expression rs) (engine.eval ready.deny input),
      rw (embedded_evaluate-ready engine e input ready, evaluated) refl,
      (decide_allow_iff (first_expression rs) (engine.eval ready.deny input)).1 first,
    )
