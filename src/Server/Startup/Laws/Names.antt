-- ===== src/Server/Startup/Laws/Names.antt =====
-- Where `--allowed-operation-names` and `--opa-params` (main.go) get to.
use gql_firewall.Base.{
  Bytes, List, Option, ◌∷◌, false, true, [], some, none, ◌≡◌, ◌≢◌, refl, sym, ap, ◌∙◌, Map, lookup,
  insert, HasKeysOnce, insert-HasKeysOnce, bytes_equal, Option-cases, if◌then◌else◌, lookup-insert,
  bytes_equal_refl, is_empty, codes, arith, inl, inr,
}
use gql_firewall.Opa.Json.{Object, Json, array}
use gql_firewall.Opa.Input.{build_input}
use gql_firewall.Opa.Store.{
  DataStore, new_data_store, set_params, get_params, Change, new_params, new_tenant, no_tenant,
  apply_change,
}
use gql_firewall.Opa.Store.Spec.{apply_changes}
use gql_firewall.Opa.Store.Laws.{lookup-copy_into, copy_into-HasKeysOnce}
use gql_firewall.Parser.Info.{QueryInfo}
use gql_firewall.Server.Evaluate.Outcomes.{asked}
use gql_firewall.Server.Startup.Laws.{start-Started, embedded_policy-eq-ready}
use gql_firewall.Server.Startup.{
  Policy, Startup, fatal, Flags, Environment, ready, split_commas, names_json, allow_names,
  sidecar_policy, policy_of, check_flags, Server, start, server_of, config_of, limiter_of,
  body_limit,
}

-- With a sidecar neither flag has any effect: the server that starts is the same, or none starts, with
-- other names and other parameters.
start-sidecar :
    (env : Environment) (f : Flags) (names params : Bytes)
    → f.opa ≢ []
    → start env (record f { allowed_operation_names = names; opa_params = params }) ≡ start env f
unfolding start check_flags policy_of sidecar_policy server_of config_of limiter_of body_limit
start-sidecar env f names params h =
    let filled : is_empty f.opa ≡ false = ground arith in rw (filled, policy_of) refl

get_params-HasKeysOnce : (store : DataStore) → HasKeysOnce (get_params store)
unfolding get_params
get_params-HasKeysOnce store = elim (Option-cases store.params) [
  | inl nothing ↦ rw (nothing, get_params) tt
  | inr (m, kept) ↦ rw (kept, get_params) (copy_into-HasKeysOnce m [] tt)
]

lookup-set_params :
    (m : Map Json) (store : DataStore) (key : Bytes)
    → HasKeysOnce m
    → lookup key (get_params (set_params (some m) store)) ≡ lookup key m
unfolding set_params get_params lookup
lookup-set_params m store key once = lookup-copy_into key m [] once ∙ ground arith

-- The parameters after the allowlist is put in: its entry, and no other change.
allow_names-params :
    (text : Bytes) (store : DataStore) (key : Bytes)
    → text ≢ []
    → lookup key (get_params (allow_names text store)) ≡ (
        if bytes_equal (codes "allowed_operation_names") key
        then some (array (names_json (split_commas text)))
        else lookup key (get_params store))
unfolding allow_names
allow_names-params text store key h =
    let entry = array (names_json (split_commas text)) in
    let m = insert (codes "allowed_operation_names") entry (get_params store) in
    let once : HasKeysOnce m =
      insert-HasKeysOnce (codes "allowed_operation_names") entry (get_params store)
        (get_params-HasKeysOnce store) in
    let filled : is_empty text ≡ false = ground arith in
    rw (filled, allow_names)
      (lookup-set_params m store key once
        ∙ lookup-insert (codes "allowed_operation_names") key entry (get_params store))

-- The fields of results, for equations between results.
kept_of : Startup Server → Option DataStore
kept_of (ready s) = s.config.opa_store
kept_of (fatal e) = none

store_of : Startup Policy → DataStore
store_of (ready p) = p.store
store_of (fatal e) = new_data_store

-- The parameters that requests to the admin API make of others: those of the last update of the rules.
abbrev pub params_after : List Change → Object → Object
params_after [] params = params
params_after (new_params params' ∷ chs) params =
    params_after chs (some (get_params (set_params params' new_data_store)))
params_after (ch ∷ chs) params = params_after chs params

get_params-apply_changes :
    (chs : List Change) (d : DataStore)
    → params_after chs (some (get_params d)) ≡ some (get_params (apply_changes chs d))
unfolding apply_changes apply_change set_params get_params
get_params-apply_changes [] d = refl
get_params-apply_changes (new_params params ∷ chs) d =
    get_params-apply_changes chs (apply_change (new_params params) d)
get_params-apply_changes (new_tenant id cfg ∷ chs) d =
    get_params-apply_changes chs (apply_change (new_tenant id cfg) d)
get_params-apply_changes (no_tenant id ∷ chs) d =
    get_params-apply_changes chs (apply_change (no_tenant id) d)

-- With an embedded policy, a server starts with a store in which the allowlist is among the parameters.
-- After any changes of the store by the admin API, the input that OPA gets for any query has those
-- parameters until the rules are updated, and from then on those of the last update instead, whether the
-- allowlist is among them or not.
pub start-allowed_names :
    (env : Environment) (f : Flags) (s : Server) (info : QueryInfo) (chs : List Change)
    → f.opa ≡ []
    → f.allowed_operation_names ≢ []
    → start env f ≡ ready s
    → (store : DataStore) × (params : Map Json) × (s.config.opa_store ≡ some store)
      × (lookup (codes "allowed_operation_names") params
          ≡ some (array (names_json (split_commas f.allowed_operation_names))))
      × ((asked (record s.config { opa_store = some (apply_changes chs store) }) info).params
          ≡ params_after chs (some params))
unfolding build_input server_of config_of policy_of store_of kept_of
start-allowed_names env f s info chs embedded named h =
    let t = start-Started env f s h in
    let blank : is_empty f.opa ≡ true = ground arith in
    let (p, built) = embedded_policy-eq-ready env f t.policy (rw blank at t.built) in
    let store = allow_names f.allowed_operation_names p.loaded in
    (
      store,
      get_params store,
      sym (ap kept_of t.server) ∙ ap (λ q. some q) (sym (ap store_of built)),
      allow_names-params f.allowed_operation_names p.loaded (codes "allowed_operation_names") named
          ∙ rw bytes_equal_refl,
      sym (get_params-apply_changes chs store),
    )
