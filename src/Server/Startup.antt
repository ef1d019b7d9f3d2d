-- ===== src/Server/Startup.antt =====
-- `main` (main.go): the checks of the flags, and what is built from them. Logging, listeners and the
-- shutdown are outside. A float rate is in millionths of a request per second; a rate, a burst and a TTL
-- that is not positive is 0.
pub mod Laws
use gql_firewall.Base.{
  ℕ, ◌*◌, ◌/◌, ◌%◌, ◌^◌, ℤ, pos, negsuc, Bytes, Bool, true, false, not, ◌&&◌, List, [], ◌∷◌, Option,
  none, some, insert, ltb, leb, ◌==◌, is_empty, if◌then◌else◌, codes,
}
use gql_firewall.Opa.Json.{str, array, Items, nil, cons, Object}
use gql_firewall.Opa.Store.{
  DataStore, new_data_store, set_params, get_params, load_params_from_json,
}
use gql_firewall.Opa.Evaluators.{Evaluator, Http, sidecar_configured, sidecar_evaluate}
use gql_firewall.Opa.Embedded.{Engine, new_embedded, embedded_evaluator}
use gql_firewall.Parser.Schema.{SchemaInfo, SchemaLibrary, load_schema_from_bytes}
use gql_firewall.Proxy.Handler.{Handler}
use gql_firewall.Proxy.Upstream.{UrlLibrary, Proxy, created, refused, new_proxy}
use gql_firewall.Ratelimit.{Limiter, new_limiter}
use gql_firewall.Server.Admin.{EvaluatorStore, sidecar, shared}
use gql_firewall.Server.Evaluate.{Config}
use gql_firewall.Server.Pipeline.{Backend, composite}

pub record Flags : Type 0 where
  pub upstream : Bytes
  pub opa : Bytes
  pub opa_embed : Bytes
  pub opa_params : Bytes
  pub schema : Bytes
  pub admin : Bytes
  pub admin_token : Bytes
  pub opa_cache_ttl : ℕ
  pub opa_fail_closed : Bool
  pub opa_audit_only : Bool
  pub max_body_mb : ℤ
  pub tls_cert : Bytes
  pub tls_key : Bytes
  pub metrics_listen : Bytes
  pub rate_limit : ℕ
  pub rate_burst : ℕ
  pub allowed_operation_names : Bytes

-- What `main` depends on: files, decoders, the libraries, and what the handler calls.
pub record Environment : Type 1 where
  pub read_file : Bytes → Option Bytes
  pub unmarshal : Bytes → Option Object
  pub engine : Engine
  pub schemas : SchemaLibrary
  pub http : Http
  pub urls : UrlLibrary
  pub parts : Handler Backend

-- The ends of `main` before it listens.
pub data Fatal : Type 0 where
  no_policy two_policies negative_body_limit bad_schema no_policy_file no_params_file : Fatal
  bad_params bad_policy bad_upstream : Fatal

pub data Startup {ℓ} (A : Type ℓ) : Type ℓ where
  fatal : Fatal → Startup A
  ready : A → Startup A

infixl 5 ◌>>=◌
abbrev pub ◌>>=◌ {ℓ κ} : {A : Type ℓ} {B : Type κ} → Startup A → (A → Startup B) → Startup B
fatal e >>= k = fatal e
ready a >>= k = k a

abbrev pub or_fatal {ℓ} : {A : Type ℓ} → Fatal → Option A → Startup A
or_fatal e none = fatal e
or_fatal e (some a) = ready a

abbrev pub is_negative : ℤ → Bool
is_negative (pos n) = false
is_negative (negsuc n) = true

unfoldable pub check_flags : Flags → Startup (Unit {0})
check_flags f =
    if is_empty f.opa && is_empty f.opa_embed
    then fatal no_policy
    else if not (is_empty f.opa) && not (is_empty f.opa_embed)
    then fatal two_policies
    else if is_negative f.max_body_mb
    then fatal negative_body_limit
    else ready tt

-- `parser.LoadSchema`
unfoldable pub load_schema : Environment → Bytes → Option SchemaInfo
load_schema env path = elim (env.read_file path) [
  | none ↦ none
  | some text ↦ load_schema_from_bytes env.schemas text path
]

unfoldable pub schema_of : Environment → Bytes → Startup (Option SchemaInfo)
unfolding load_schema
schema_of env path =
    if is_empty path
    then ready none
    else elim (load_schema env path) [ none ↦ fatal bad_schema | some info ↦ ready (some info) ]

-- `strings.Split(s, ",")`
abbrev pub start_with : ℕ → List Bytes → List Bytes
start_with c [] = (c ∷ []) ∷ []
start_with c (w ∷ ws) = (c ∷ w) ∷ ws

unfoldable pub split_commas : Bytes → List Bytes
split_commas [] = [] ∷ []
split_commas (c ∷ s) =
    let rest = split_commas s in if c == b',' then [] ∷ rest else start_with c rest

abbrev pub names_json : List Bytes → Items
names_json [] = nil
names_json (n ∷ ns) = cons (str n) (names_json ns)

-- `params["allowed_operation_names"] = names`
unfoldable pub allow_names : Bytes → DataStore → DataStore
unfolding split_commas set_params
allow_names text store =
    if is_empty text
    then store
    else set_params
        (some (
          insert (codes "allowed_operation_names") (array (names_json (split_commas text)))
            (get_params store)))
        store

unfoldable pub load_params : Environment → Bytes → DataStore → Startup DataStore
unfolding load_params_from_json
load_params env path store =
    if is_empty path
    then ready store
    else or_fatal no_params_file (env.read_file path) >>= λ text.
        or_fatal bad_params (load_params_from_json env.unmarshal text store)

-- The evaluator with the store that the API and the inputs use, and where it keeps its own parameters.
pub record Policy : Type 0 where
  pub evaluator : Evaluator
  pub store : DataStore
  pub kept : EvaluatorStore

-- `opa.NewSidecar`, or `opa.NewEmbedded` on the store.
unfoldable pub sidecar_policy : Environment → Flags → Policy
sidecar_policy env f = record {
  evaluator = record {
    evaluate = sidecar_evaluate env.http f.opa;
    configured = sidecar_configured f.opa;
  };
  store = new_data_store;
  kept = sidecar;
}

unfoldable pub embedded_policy : Environment → Flags → Startup Policy
unfolding load_params allow_names
embedded_policy env f = or_fatal no_policy_file (env.read_file f.opa_embed) >>= λ policy.
    load_params env f.opa_params new_data_store >>= λ loaded.
    let store = allow_names f.allowed_operation_names loaded in
    or_fatal bad_policy (new_embedded env.engine (record { policy = policy; store = some store }))
    >>= λ e.
        ready (record { evaluator = embedded_evaluator env.engine e; store = store; kept = shared })

unfoldable pub policy_of : Environment → Flags → Startup Policy
unfolding embedded_policy sidecar_policy
policy_of env f = if is_empty f.opa then embedded_policy env f else ready (sidecar_policy env f)

-- `*maxBodyMB * 1024 * 1024` on int64; the handler has no limit unless it is positive.
unfoldable pub body_limit : ℤ → ℕ
body_limit (pos n) = let v = n * 1024 * 1024 % 2 ^ 64 in if ltb v (2 ^ 63) then v else 0
body_limit (negsuc n) = 0

-- `burst = int(*ratePerSec) * 2`, where the flag gives none, in int64. A negative product is 0 here, as
-- `New` replaces both; the conversion to int is exact below 2 ^ 63, and Go leaves it open beyond.
unfoldable pub burst_of : Flags → ℕ
burst_of f =
    let doubled = f.rate_limit / 1000000 * 2 % 2 ^ 64 in
    if leb f.rate_burst 0 then if ltb doubled (2 ^ 63) then doubled else 0 else f.rate_burst

unfoldable pub limiter_of : Flags → Option Limiter
unfolding burst_of
limiter_of f =
    if ltb 0 f.rate_limit
    then some (new_limiter (record { requests_per_second = f.rate_limit; burst = burst_of f }))
    else none

unfoldable pub proxy_of : Environment → Config → Bytes → Startup (Proxy Backend)
proxy_of env c upstream =
    elim (new_proxy env.urls (record env.parts { evaluate = composite c }) upstream) [
      | created p ↦ ready p
      | refused e ↦ fatal bad_upstream
    ]

-- What `main` serves. `admin` is the token of the admin API, if that is started.
pub record Server : Type 1 where
  pub config : Config
  pub kept : EvaluatorStore
  pub admin : Option Bytes
  pub proxy : Proxy Backend
  pub limiter : Option Limiter
  pub metrics_on_main : Bool
  pub tls : Bool

unfoldable pub config_of : Environment → Flags → Option SchemaInfo → Policy → Config
config_of env f schema policy = record {
  library = env.schemas;
  unmarshal = env.unmarshal;
  opa = policy.evaluator.evaluate;
  opa_store = some policy.store;
  schema = schema;
  cache_ttl = f.opa_cache_ttl;
  opa_fail_closed = f.opa_fail_closed;
  opa_audit_only = f.opa_audit_only;
}

unfoldable pub server_of : Flags → Config → EvaluatorStore → Proxy Backend → Server
unfolding limiter_of body_limit
server_of f c kept p = record {
  config = c;
  kept = kept;
  admin = if is_empty f.admin then none else some f.admin_token;
  proxy = record p { handler = record p.handler { max_body_bytes = body_limit f.max_body_mb } };
  limiter = limiter_of f;
  metrics_on_main = is_empty f.metrics_listen;
  tls = not (is_empty f.tls_cert) && not (is_empty f.tls_key);
}

-- `main`, up to the listeners.
unfoldable pub start : Environment → Flags → Startup Server
unfolding check_flags schema_of policy_of proxy_of server_of config_of
start env f = check_flags f >>= λ _. schema_of env f.schema >>= λ schema.
    policy_of env f >>= λ policy.
    let c = config_of env f schema policy in
    proxy_of env c f.upstream >>= λ p. ready (server_of f c policy.kept p)
