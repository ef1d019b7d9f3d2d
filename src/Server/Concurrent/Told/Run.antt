-- ===== src/Server/Concurrent/Told/Run.antt =====
-- What OPA was told and said in a run of the evaluations (main.go) among each other and the admin API.
use gql_firewall.Base.{
  ℕ, Bytes, lookup, ◌==◌, ◌≡◌, ◌⊎◌, inl, inr, refl, sym, subst, Bool-cases, if◌then◌else◌, arith,
}
use gql_firewall.Opa.Json.{Result}
use gql_firewall.Opa.Input.{Input}
use gql_firewall.Opa.Store.{DataStore}
use gql_firewall.Parser.Info.{QueryInfo}
use gql_firewall.Server.Evaluate.{Config}
use gql_firewall.Server.Concurrent.{
  Stage, idle, entered, got_params, built, missed, answered, returned, change_store, enter, advance,
  System, set_stage, Step, begin, go_on, answer, change, wait, Reach, start, next,
}
use gql_firewall.Server.Concurrent.Told.{
  IsTold, OpaSaid, StageTold, CacheTold, advance-StageTold, enter-StageTold, advance-CacheTold,
}

-- The store had these contents at some point of the run.
pub Had :
    {c : Config} {store : DataStore} {now : ℕ} {s : System}
    → Reach c store now s
    → DataStore
    → Type 0
Had {store = store} start d = d ≡ store
Had (next {t = t} run step) d = Had run d ⊎ (d ≡ t.shared.store)

Had-now :
    {c : Config} {store : DataStore} {now : ℕ} {s : System} (run : Reach c store now s)
    → Had run s.shared.store
unfolding Had
Had-now start = refl
Had-now (next run step) = inr refl

module _ (c : Config) {H K : DataStore → Type 0} (more : (d : DataStore) → H d → K d) where
  IsTold-more : {info : QueryInfo} {input : Input} → IsTold c H info input → IsTold c K info input
  IsTold-more h = record {
    params_of = h.params_of;
    tenant_of = h.tenant_of;
    params_had = more h.params_of h.params_had;
    tenant_had = more h.tenant_of h.tenant_had;
    told = h.told;
  }

  OpaSaid-more : {key : Bytes} {r : Result} → OpaSaid c H key r → OpaSaid c K key r
  OpaSaid-more h = record {
    query = h.query;
    same_key = h.same_key;
    input = h.input;
    is_told = IsTold-more h.is_told;
    answer = h.answer;
    answered = h.answered;
    decided = h.decided;
  }

  StageTold-more : (stage : Stage) → StageTold c H stage → StageTold c K stage
  StageTold-more idle h = tt
  StageTold-more (entered info) h = tt
  StageTold-more (got_params info params v t) (d, had, same) = (d, more d had, same)
  StageTold-more (built info input v t) h = IsTold-more h
  StageTold-more (missed info input v t) h = IsTold-more h
  StageTold-more (answered info result v t) h = OpaSaid-more h
  StageTold-more (returned result) h = tt

-- What is under way and what is cached goes back to stores of `H`.
pub record AllTold (c : Config) (H : DataStore → Type 0) (s : System) : Type 0 where
  pub staged : (i : ℕ) → StageTold c H (s.stage i)
  pub cached : CacheTold c H s.shared.cache

set_stage-StageTold :
    (c : Config) (H : DataStore → Type 0) (stage : ℕ → Stage) (i : ℕ) (new : Stage)
    → ((j : ℕ) → StageTold c H (stage j))
    → StageTold c H new
    → (j : ℕ) → StageTold c H (set_stage stage i new j)
set_stage-StageTold c H stage i new old h j = elim (Bool-cases (i == j)) [
  | inl here ↦ subst (λ b. StageTold c H (if b then new else stage j)) (sym here) h
  | inr other ↦ subst (λ b. StageTold c H (if b then new else stage j)) (sym other) (old j)
]

Step-AllTold :
    (c : Config) (H : DataStore → Type 0) {s t : System}
    → Step c s t
    → H s.shared.store
    → AllTold c H s
    → AllTold c H t
Step-AllTold c H {s = s} (begin i info waiting) had h = record {
  staged = set_stage-StageTold c H s.stage i (enter c info) h.staged (enter-StageTold c H info);
  cached = h.cached;
}
Step-AllTold c H {s = s} (go_on i) had h = record {
  staged =
      set_stage-StageTold c H s.stage i (advance c (s.stage i) s.shared).0 h.staged
        (advance-StageTold c H (s.stage i) s.shared had (h.staged i));
  cached = advance-CacheTold c H (s.stage i) s.shared (h.staged i) h.cached;
}
Step-AllTold c H {s = s} (answer i r done) had h = record {
  staged = set_stage-StageTold c H s.stage i idle h.staged tt;
  cached = h.cached;
}
Step-AllTold c H (change ch) had h = record {
  staged = h.staged;
  cached = λ key e at. h.cached key e (unfold change_store in at);
}
Step-AllTold c H (wait n) had h = record { staged = h.staged; cached = h.cached }

pub Reach-AllTold :
    {c : Config} {store : DataStore} {now : ℕ} {s : System} (run : Reach c store now s)
    → AllTold c (Had run) s
unfolding Had
Reach-AllTold start = record {
  staged = λ i. tt;
  cached = λ key e at. absurd (unfold lookup in ground arith);
}
Reach-AllTold {c = c} (next run step) =
    let h = Step-AllTold c (Had run) step (Had-now run) (Reach-AllTold run) in
    record {
      staged = λ i. StageTold-more c (λ d had. inl had) _ (h.staged i);
      cached = λ key e at. OpaSaid-more c (λ d had. inl had) (h.cached key e at);
    }
