-- ===== src/Tests/Concurrent.antt =====
-- Two threads and the admin API: a policy that refuses everything as soon as there is a parameter, an
-- evaluation without interruption, and one that a change of the parameters overtakes.
use gql_firewall.Base.{
  ℕ, ◌+◌, true, false, [], ◌∷◌, none, some, codes, ◌≡◌, refl, lookup, insert, bytes_equal, arith,
}
use gql_firewall.Opa.Json.{bool, Object, Result}
use gql_firewall.Opa.Input.{build_input}
use gql_firewall.Opa.Store.{
  Change, new_params, apply_change, new_data_store, set_params, get_params,
}
use gql_firewall.Server.CacheKey.{decision_cache_key}
use gql_firewall.Server.Evaluate.{Config, State, schema_refusal, evaluate}
use gql_firewall.Server.Concurrent.{
  change_store, enter, look_up, advance, System, set_stage, begin, go_on, change, wait, initial,
  Reach, start, next, input_of, store_entry,
}
use gql_firewall.Server.Concurrent.Alone
use gql_firewall.Server.Concurrent.Alone.{advances, Ends, with_store}
use gql_firewall.Server.Concurrent.Sound.{answer_under}
use gql_firewall.Server.Concurrent.Staleness
use gql_firewall.Server.Concurrent.Staleness.{IsCurrent}
use gql_firewall.Server.Concurrent.Told.Allowed
use gql_firewall.Server.Concurrent.Told.Allowed.{OpaAllowed}
use gql_firewall.Server.Concurrent.Told.Run.{Had}
use gql_firewall.Tests.Samples.{sample_info}
use gql_firewall.Tests.Startup.{no_schemas}

abbrev allowed : Result
allowed = record { allowed = true; reason = [] }

abbrev refused : Result
refused = record { allowed = false; reason = codes "no" }

abbrev by_params : Object → Result
by_params none = allowed
by_params (some []) = allowed
by_params (some (e ∷ m)) = refused

abbrev config : Config
config = record {
  library = no_schemas;
  unmarshal = λ s. none;
  opa = λ input. some (by_params input.params);
  opa_store = none;
  schema = none;
  cache_ttl = 60;
  opa_fail_closed = true;
  opa_audit_only = false;
}

running : Unit {0}
unfolding lookup insert bytes_equal decision_cache_key build_input set_params get_params
    schema_refusal apply_change change_store enter look_up input_of store_entry advance advances
    evaluate
running = tt

abbrev moved : ℕ → System → System
moved i s = record {
  shared = (advance config (s.stage i) s.shared).1;
  stage = set_stage s.stage i (advance config (s.stage i) s.shared).0;
}

abbrev begun : ℕ → System → System
begun i s = record s { stage = set_stage s.stage i (enter config sample_info) }

abbrev closing : Change
closing = new_params (some ((codes "closed", bool true) ∷ []))

abbrev changed : System → System
changed s = record s { shared = change_store closing s.shared }

abbrev waited : ℕ → System → System
waited n s = record s { shared = record s.shared { time = s.shared.time + n } }

-- The parameters change, a minute and more passes, and thread 0 evaluates a query.
abbrev settled : System
settled = begun 0 (waited 100 (changed (initial new_data_store 5)))

abbrev evaluated : System
evaluated = moved 0 (moved 0 (moved 0 (moved 0 (moved 0 settled))))

Reach-settled : Reach config new_data_store 5 settled
unfolding running
Reach-settled = next (next (next start (change closing)) (wait 100)) (begin 0 sample_info refl)

Reach-evaluated : Reach config new_data_store 5 evaluated
unfolding running
Reach-evaluated =
    next (next (next (next (next Reach-settled (go_on 0)) (go_on 0)) (go_on 0)) (go_on 0)) (go_on 0)

look_up-IsCurrent_example :
    IsCurrent config evaluated.shared.store (decision_cache_key sample_info) refused
unfolding running
look_up-IsCurrent_example =
    Staleness.look_up-IsCurrent config new_data_store 5 evaluated Reach-evaluated
      (decision_cache_key sample_info) refused 0 refl (λ e at. ground arith) (omega arith)

-- Thread 0 reads the parameters, the parameters change, and it stores its decision: the hit that thread
-- 1 gets is not what the policy says of the parameters as they are.
abbrev overtaken : System
overtaken =
    begun 1 (
      moved 0
        (moved 0 (moved 0 (changed (moved 0 (moved 0 (begun 0 (initial new_data_store 5))))))))

overtaken_hit : look_up config (decision_cache_key sample_info) overtaken.shared ≡ some allowed
unfolding running
overtaken_hit = refl

overtaken_answer : answer_under config overtaken.shared.store sample_info ≡ some refused
unfolding running
overtaken_answer = refl

-- Thread 1 is about to get it.
abbrev hitting : System
hitting = moved 1 (moved 1 overtaken)

Reach-hitting : Reach config new_data_store 5 hitting
unfolding running
Reach-hitting =
    let asked : Reach config new_data_store 5
        (moved 0 (moved 0 (begun 0 (initial new_data_store 5)))) =
      next (next (next start (begin 0 sample_info refl)) (go_on 0)) (go_on 0) in
    let stored = next (next (next (next asked (change closing)) (go_on 0)) (go_on 0)) (go_on 0) in
    next (next (next stored (begin 1 sample_info refl)) (go_on 1)) (go_on 1)

advance-OpaAllowed_example : OpaAllowed config (Had Reach-hitting) (decision_cache_key sample_info)
unfolding running
advance-OpaAllowed_example =
    Allowed.advance-OpaAllowed config new_data_store 5 hitting Reach-hitting refl refl 1 sample_info
      allowed refl refl refl

abbrev empty : State
empty = record { cache = []; events = [] }

advances-evaluate_example : Ends (advances config 5 (enter config sample_info, settled.shared)) (
    evaluate
      (with_store config settled.shared)
      settled.shared.time
      settled.shared.time
      sample_info
      empty)
unfolding running
advances-evaluate_example =
    Alone.advances-evaluate config settled.shared sample_info empty (λ key. refl)
