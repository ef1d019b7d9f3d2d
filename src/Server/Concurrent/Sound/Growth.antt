-- ===== src/Server/Concurrent/Sound/Growth.antt =====
-- The accesses of an evaluation, the changes of the store and the passing of time (main.go), as passages
-- to a later state.
use gql_firewall.Base.{ℕ, Map, ◌+◌, ◌≤◌, inl, inr, refl, Bool-cases, ltb, arith}
use gql_firewall.Opa.Store.{Change}
use gql_firewall.Opa.Json.{Result}
use gql_firewall.Parser.Info.{QueryInfo}
use gql_firewall.Server.Evaluate.{Config}
use gql_firewall.Server.Concurrent.{
  Entry, Shared, Stage, idle, entered, got_params, built, missed, answered, returned, change_store,
  store_entry, advance,
}
use gql_firewall.Server.Concurrent.Sound.{Later}

Later-refl : (m : Shared) → Later m m
Later-refl m = record {
  version = omega arith;
  time = omega arith;
  updated = omega arith;
  changed = λ lt. absurd (omega arith);
  same_store = λ e. refl;
}

Later-cache : (m : Shared) (cache : Map Entry) → Later m (record m { cache = cache })
Later-cache m cache = record {
  version = omega arith;
  time = omega arith;
  updated = omega arith;
  changed = λ lt. absurd (omega arith);
  same_store = λ e. refl;
}

pub store_entry-Later :
    (c : Config) (info : QueryInfo) (result : Result) (v t : ℕ) (m : Shared)
    → Later m (store_entry c info result v t m)
unfolding store_entry
store_entry-Later c info result v t m = elim (Bool-cases (ltb 0 c.cache_ttl)) [
  | inl on ↦ rw on (Later-cache m _)
  | inr off ↦ rw off (Later-refl m)
]

pub advance-Later : (c : Config) (stage : Stage) (m : Shared) → Later m (advance c stage m).1
unfolding advance
advance-Later c idle m = Later-refl m
advance-Later c (entered info) m = Later-refl m
advance-Later c (got_params info params v t) m = Later-refl m
advance-Later c (built info input v t) m = Later-refl m
advance-Later c (missed info input v t) m = Later-refl m
advance-Later c (answered info result v t) m = store_entry-Later c info result v t m
advance-Later c (returned result) m = Later-refl m

store_entry-updated :
    (c : Config) (info : QueryInfo) (result : Result) (v t : ℕ) (m : Shared)
    → m.updated_at ≤ m.time
    → (store_entry c info result v t m).updated_at ≤ (store_entry c info result v t m).time
unfolding store_entry
store_entry-updated c info result v t m h = elim (Bool-cases (ltb 0 c.cache_ttl)) [
  | inl on ↦ rw on h
  | inr off ↦ rw off h
]

pub advance-updated :
    (c : Config) (stage : Stage) (m : Shared)
    → m.updated_at ≤ m.time
    → (advance c stage m).1.updated_at ≤ (advance c stage m).1.time
unfolding advance
advance-updated c (answered info result v t) m h = store_entry-updated c info result v t m h
advance-updated c stage m h = h

pub change_store-Later :
    (ch : Change) (m : Shared) → m.updated_at ≤ m.time → Later m (change_store ch m)
unfolding change_store
change_store-Later ch m h = record {
  version = omega arith;
  time = omega arith;
  updated = h;
  changed = λ lt. omega arith;
  same_store = λ e. absurd (omega arith);
}

pub wait-Later : (n : ℕ) (m : Shared) → Later m (record m { time = m.time + n })
wait-Later n m = record {
  version = omega arith;
  time = omega arith;
  updated = omega arith;
  changed = λ lt. absurd (omega arith);
  same_store = λ e. refl;
}
