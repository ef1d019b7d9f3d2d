-- ===== src/Server/Concurrent/Sound/Steps.antt =====
-- Soundness along the steps of interleaved evaluations (main.go).
use gql_firewall.Base.{
  ℕ, ◌+◌, ◌≤◌, Bytes, some, lookup, insert, lookup-insert, bytes_equal, bytes_equal_iff, ◌≡◌, inl,
  inr, refl, sym, subst, Bool-cases, ltb, ◌==◌, if◌then◌else◌, arith,
}
use gql_firewall.Opa.Json.{Result}
use gql_firewall.Opa.Store.{DataStore}
use gql_firewall.Parser.Info.{QueryInfo}
use gql_firewall.Server.CacheKey.{decision_cache_key}
use gql_firewall.Server.Evaluate.{Config}
use gql_firewall.Server.Concurrent.{
  Entry, Shared, Stage, idle, entered, got_params, built, missed, answered, returned, change_store,
  enter, store_entry, advance, System, set_stage, Step, begin, go_on, answer, change, wait, Reach,
  start, next,
}
use gql_firewall.Server.Concurrent.Sound.{
  StageSound, EntrySound, CacheSound, IsSound, advance_stage-StageSound, enter-StageSound, Later,
  StageSound-Later, EntrySound-Later,
}
use gql_firewall.Server.Concurrent.Sound.Growth.{
  store_entry-Later, advance-Later, advance-updated, change_store-Later, wait-Later,
}

module _ (c : Config) where
  -- The decision that an evaluation stores.
  abbrev entry_of : Result → ℕ → ℕ → Shared → Entry
  entry_of result v t m = record {
    decision = record { result = result; expiry = m.time + c.cache_ttl };
    version = v;
    read_at = t;
    stored_at = m.time;
  }

  entry_of-EntrySound :
      (info : QueryInfo) (result : Result) (v t : ℕ) (m : Shared)
      → StageSound c m (answered info result v t)
      → EntrySound c m (decision_cache_key info) (entry_of result v t m)
  entry_of-EntrySound info result v t m h = record {
    read = h.0;
    stored = omega arith;
    later = h.0.past;
    expiry = refl;
    query = info;
    same_key = refl;
    current = h.1;
  }

  insert-EntrySound :
      (info : QueryInfo) (result : Result) (v t : ℕ) (m : Shared)
      → StageSound c m (answered info result v t)
      → CacheSound c m
      → (key : Bytes) (e : Entry)
      → lookup key (insert (decision_cache_key info) (entry_of result v t m) m.cache) ≡ some e
      → EntrySound c m key e
  insert-EntrySound info result v t m h sound key e at =
      elim (Bool-cases (bytes_equal (decision_cache_key info) key)) [
        | inl same ↦
            let new : some (entry_of result v t m) ≡ some e = rw same at (rw lookup-insert at at) in
            let new_entry : entry_of result v t m ≡ e = cc in
            subst (λ k. EntrySound c m k e) ((bytes_equal_iff (decision_cache_key info) key).0 same)
              (subst (EntrySound c m (decision_cache_key info)) new_entry
                (entry_of-EntrySound info result v t m h))
        | inr other ↦ sound key e (rw other at (rw lookup-insert at at))
      ]

  store_entry-CacheSound :
      (info : QueryInfo) (result : Result) (v t : ℕ) (m : Shared)
      → StageSound c m (answered info result v t)
      → CacheSound c m
      → CacheSound c (store_entry c info result v t m)
  unfolding store_entry
  store_entry-CacheSound info result v t m h sound key e at =
      EntrySound-Later (store_entry-Later c info result v t m) c key e
        (elim (Bool-cases (ltb 0 c.cache_ttl)) [
          | inl on ↦ insert-EntrySound info result v t m h sound key e (rw on at at)
          | inr off ↦ sound key e (rw off at at)
        ])

  advance-CacheSound :
      (stage : Stage) (m : Shared)
      → StageSound c m stage
      → CacheSound c m
      → CacheSound c (advance c stage m).1
  unfolding advance
  advance-CacheSound idle m h sound = sound
  advance-CacheSound (entered info) m h sound = sound
  advance-CacheSound (got_params info params v t) m h sound = sound
  advance-CacheSound (built info input v t) m h sound = sound
  advance-CacheSound (missed info input v t) m h sound = sound
  advance-CacheSound (answered info result v t) m h sound =
      store_entry-CacheSound info result v t m h sound
  advance-CacheSound (returned result) m h sound = sound

  set_stage-StageSound :
      (m : Shared) (stage : ℕ → Stage) (i : ℕ) (new : Stage)
      → ((j : ℕ) → StageSound c m (stage j))
      → StageSound c m new
      → (j : ℕ) → StageSound c m (set_stage stage i new j)
  set_stage-StageSound m stage i new old h j = elim (Bool-cases (i == j)) [
    | inl here ↦ subst (λ b. StageSound c m (if b then new else stage j)) (sym here) h
    | inr other ↦ subst (λ b. StageSound c m (if b then new else stage j)) (sym other) (old j)
  ]

  -- The passage to a later state whose cache is sound.
  IsSound-Later :
      {s : System} {m' : Shared}
      → Later s.shared m'
      → m'.updated_at ≤ m'.time
      → CacheSound c m'
      → IsSound c s
      → IsSound c (record s { shared = m' })
  IsSound-Later later updated cached h = record {
    updated = updated;
    cached = cached;
    staged = λ i. StageSound-Later later c _ (h.staged i);
  }

  -- Every step keeps soundness.
  pub Step-IsSound : {s t : System} → Step c s t → IsSound c s → IsSound c t
  Step-IsSound {s = s} (begin i info waiting) h = record {
    updated = h.updated;
    cached = h.cached;
    staged =
        set_stage-StageSound s.shared s.stage i (enter c info) h.staged
          (enter-StageSound c info s.shared);
  }
  Step-IsSound {s = s} (go_on i) h =
      let later = advance-Later c (s.stage i) s.shared in
      record {
        updated = advance-updated c (s.stage i) s.shared h.updated;
        cached = advance-CacheSound (s.stage i) s.shared (h.staged i) h.cached;
        staged =
            set_stage-StageSound (advance c (s.stage i) s.shared).1 s.stage i
              (advance c (s.stage i) s.shared).0
              (λ j. StageSound-Later later c (s.stage j) (h.staged j))
              (StageSound-Later later c (advance c (s.stage i) s.shared).0
                (advance_stage-StageSound c (s.stage i) s.shared (h.staged i)));
      }
  Step-IsSound {s = s} (answer i r done) h = record {
    updated = h.updated;
    cached = h.cached;
    staged = set_stage-StageSound s.shared s.stage i idle h.staged tt;
  }
  Step-IsSound {s = s} (change ch) h =
      IsSound-Later (change_store-Later ch s.shared h.updated) (unfold change_store in omega arith)
        (λ key e at.
          EntrySound-Later (change_store-Later ch s.shared h.updated) c key e
            (h.cached key e (unfold change_store in at)))
        h
  Step-IsSound {s = s} (wait n) h =
      IsSound-Later (wait-Later n s.shared) (omega arith)
        (λ key e at. EntrySound-Later (wait-Later n s.shared) c key e (h.cached key e at)) h

  -- In every interleaving, what is cached and what is under way is sound.
  pub Reach-IsSound : {store : DataStore} {now : ℕ} {s : System} → Reach c store now s → IsSound c s
  Reach-IsSound start = record {
    updated = omega arith;
    cached = λ key e at. absurd (unfold lookup in ground arith);
    staged = λ i. tt;
  }
  Reach-IsSound (next r step) = Step-IsSound step (Reach-IsSound r)
