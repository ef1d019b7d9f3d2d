-- ===== src/Server/Startup/Laws.antt =====
-- When `main` (main.go) starts.
pub mod Limits
pub mod Names
pub mod Wiring
pub mod Policies
use gql_firewall.Base.{
  Bytes, false, [], Option, none, some, ◌≡◌, ◌≢◌, ◌↔◌, ◌⊎◌, inl, inr, refl, is_empty, Bool-cases,
  Option-cases, arith,
}
use gql_firewall.Opa.Embedded.{Embedded, new_embedded, embedded_evaluator}
use gql_firewall.Opa.Store.{DataStore, new_data_store}
use gql_firewall.Parser.Schema.{SchemaInfo}
use gql_firewall.Proxy.Upstream.{Url, Proxy, created, new_proxy}
use gql_firewall.Proxy.Upstream.Laws.{IsHttpUrl, new_proxy_iff, proxy_to}
use gql_firewall.Server.Admin.{shared}
use gql_firewall.Server.Evaluate.{Config}
use gql_firewall.Server.Pipeline.{Backend, composite}
use gql_firewall.Server.Startup.{
  Flags, Environment, Fatal, Startup, fatal, ready, is_negative, check_flags, load_schema,
  schema_of, load_params, allow_names, Policy, embedded_policy, sidecar_policy, policy_of, proxy_of,
  Server, config_of, server_of, start, ◌>>=◌, or_fatal,
}

pub >>=-eq-ready {ℓ κ} :
    {A : Type ℓ} {B : Type κ} (m : Startup A) (k : A → Startup B) {b : B}
    → (m >>= k) ≡ ready b
    → (a : A) × (m ≡ ready a) × (k a ≡ ready b)
>>=-eq-ready (fatal e) k h = cc
>>=-eq-ready (ready a) k h = (a, refl, h)

pub or_fatal-eq-ready {ℓ} :
    {A : Type ℓ} (e : Fatal) (o : Option A) {a : A} → or_fatal e o ≡ ready a → o ≡ some a
or_fatal-eq-ready e none h = cc
or_fatal-eq-ready e (some a) h = cc

-- The embedded policy: its file is there, its parameters load, and its Rego text compiles.
pub record HasPolicy (env : Environment) (f : Flags) : Type 1 where
  pub policy : Bytes
  pub read : env.read_file f.opa_embed ≡ some policy
  pub loaded : DataStore
  pub params : load_params env f.opa_params new_data_store ≡ ready loaded
  pub compiled : Embedded env.engine
  pub compiles :
      new_embedded env.engine
        (record { policy = policy; store = some (allow_names f.allowed_operation_names loaded) })
      ≡ some compiled

-- What `main` needs to start: exactly one way to reach OPA, a body limit that is not negative, a schema
-- that loads if one is named, a policy that compiles if it is embedded, and an http(s) upstream.
pub record IsStartable (env : Environment) (f : Flags) : Type 1 where
  pub one_policy : ((f.opa ≢ []) × (f.opa_embed ≡ [])) ⊎ ((f.opa ≡ []) × (f.opa_embed ≢ []))
  pub body_limit : is_negative f.max_body_mb ≡ false
  pub schema : (f.schema ≡ []) ⊎ ((info : SchemaInfo) × (load_schema env f.schema ≡ some info))
  pub policy : (f.opa ≢ []) ⊎ HasPolicy env f
  pub url : Url
  pub upstream : env.urls.parse_url f.upstream ≡ some url
  pub http : IsHttpUrl url

check_flags_iff :
    (f : Flags)
    → (check_flags f ≡ ready tt) ↔ (
        (((f.opa ≢ []) × (f.opa_embed ≡ [])) ⊎ ((f.opa ≡ []) × (f.opa_embed ≢ [])))
        × (is_negative f.max_body_mb ≡ false))
unfolding check_flags
check_flags_iff f = ground arith

schema_of-ready :
    (env : Environment) (path : Bytes) (s : Option SchemaInfo)
    → schema_of env path ≡ ready s
    → (path ≡ []) ⊎ ((info : SchemaInfo) × (load_schema env path ≡ some info))
unfolding schema_of
schema_of-ready env path s h = elim (Option-cases (load_schema env path)) [
  | inr found ↦ inr found
  | inl missing ↦ inl (ground arith)
]

ready-schema_of :
    (env : Environment) (path : Bytes)
    → (path ≡ []) ⊎ ((info : SchemaInfo) × (load_schema env path ≡ some info))
    → (s : Option SchemaInfo) × (schema_of env path ≡ ready s)
unfolding schema_of
ready-schema_of env path h = elim (Bool-cases (is_empty path)) [
  | inl none_ ↦ (none, rw (none_, schema_of) refl)
  | inr named ↦ elim h [
    | inl e ↦ absurd (ground arith)
    | inr (info, found) ↦ (some info, rw (named, schema_of, found) refl)
  ]
]

abbrev pub built_policy : (env : Environment) (f : Flags) → HasPolicy env f → Policy
built_policy env f h = record {
  evaluator = embedded_evaluator env.engine h.compiled;
  store = allow_names f.allowed_operation_names h.loaded;
  kept = shared;
}

pub embedded_policy-eq-ready :
    (env : Environment) (f : Flags) (p : Policy)
    → embedded_policy env f ≡ ready p
    → (h : HasPolicy env f) × (ready (built_policy env f h) ≡ ready p)
unfolding embedded_policy
embedded_policy-eq-ready env f p h =
    let (text, read, h1) = >>=-eq-ready _ _ h in
    let (loaded, params, h2) = >>=-eq-ready _ _ h1 in
    let (e, compiles, h3) = >>=-eq-ready _ _ h2 in
    (
      record {
        policy = text;
        read = or_fatal-eq-ready _ _ read;
        loaded = loaded;
        params = params;
        compiled = e;
        compiles = or_fatal-eq-ready _ _ compiles;
      },
      h3,
    )

policy_of-HasPolicy :
    (env : Environment) (f : Flags) (p : Policy)
    → policy_of env f ≡ ready p
    → (f.opa ≢ []) ⊎ HasPolicy env f
unfolding policy_of
policy_of-HasPolicy env f p h = elim (Bool-cases (is_empty f.opa)) [
  | inr sidecar ↦ inl (λ e. ground arith)
  | inl embedded ↦ inr (embedded_policy-eq-ready env f p (rw embedded at h)).0
]

HasPolicy-policy_of :
    (env : Environment) (f : Flags)
    → (f.opa ≢ []) ⊎ HasPolicy env f
    → (p : Policy) × (policy_of env f ≡ ready p)
unfolding policy_of embedded_policy
HasPolicy-policy_of env f h = elim (Bool-cases (is_empty f.opa)) [
  | inr sidecar ↦ (sidecar_policy env f, rw (sidecar, policy_of) refl)
  | inl embedded ↦ elim h [
    | inl named ↦ absurd (ground arith)
    | inr p ↦ (
      built_policy env f p,
      rw (embedded, policy_of, embedded_policy, p.read, p.params, p.compiles) refl,
    )
  ]
]

pub proxy_of-ready :
    (env : Environment) (c : Config) (text : Bytes) (p : Proxy Backend)
    → proxy_of env c text ≡ ready p
    → new_proxy env.urls (record env.parts { evaluate = composite c }) text ≡ created p
unfolding proxy_of
proxy_of-ready env c text p h = ground arith

ready-proxy_of :
    (env : Environment) (c : Config) (text : Bytes) (u : Url)
    → env.urls.parse_url text ≡ some u
    → IsHttpUrl u
    → (p : Proxy Backend) × (proxy_of env c text ≡ ready p)
unfolding proxy_of
ready-proxy_of env c text u e http =
    let parts = record env.parts { evaluate = composite c } in
    let p = proxy_to env.urls parts u in
    let made = (new_proxy_iff env.urls parts text p).1 (u, e, http, refl) in
    (p, rw (made, proxy_of) refl)

-- The parts from which a server that starts was made.
pub record Started (env : Environment) (f : Flags) (s : Server) : Type 1 where
  pub checked : check_flags f ≡ ready tt
  pub schema : Option SchemaInfo
  pub loaded : schema_of env f.schema ≡ ready schema
  pub policy : Policy
  pub built : policy_of env f ≡ ready policy
  pub proxy : Proxy Backend
  pub made : proxy_of env (config_of env f schema policy) f.upstream ≡ ready proxy
  pub server : ready (server_of f (config_of env f schema policy) policy.kept proxy) ≡ ready s

pub start-Started :
    (env : Environment) (f : Flags) (s : Server) → start env f ≡ ready s → Started env f s
unfolding start
start-Started env f s h =
    let (_, checked, h1) = >>=-eq-ready (check_flags f) _ h in
    let (schema, loaded, h2) = >>=-eq-ready (schema_of env f.schema) _ h1 in
    let (policy, built, h3) = >>=-eq-ready (policy_of env f) _ h2 in
    let (p, made, h4) =
      >>=-eq-ready (proxy_of env (config_of env f schema policy) f.upstream) _ h3 in
    record {
      checked = checked;
      schema = schema;
      loaded = loaded;
      policy = policy;
      built = built;
      proxy = p;
      made = made;
      server = h4;
    }

start_sound :
    (env : Environment) (f : Flags) (s : Server) → start env f ≡ ready s → IsStartable env f
start_sound env f s h =
    let t = start-Started env f s h in
    let (u, e, http, same) =
      (new_proxy_iff _ _ f.upstream t.proxy).0 (proxy_of-ready env _ f.upstream t.proxy t.made) in
    let (one, limit) = (check_flags_iff f).0 t.checked in
    record {
      one_policy = one;
      body_limit = limit;
      schema = schema_of-ready env f.schema t.schema t.loaded;
      policy = policy_of-HasPolicy env f t.policy t.built;
      url = u;
      upstream = e;
      http = http;
    }

start_complete :
    (env : Environment) (f : Flags) → IsStartable env f → (s : Server) × (start env f ≡ ready s)
unfolding start
start_complete env f h =
    let checked = (check_flags_iff f).1 (h.one_policy, h.body_limit) in
    let (schema, loaded) = ready-schema_of env f.schema h.schema in
    let (policy, built) = HasPolicy-policy_of env f h.policy in
    let (p, made) =
      ready-proxy_of env (config_of env f schema policy) f.upstream h.url h.upstream h.http in
    (
      server_of f (config_of env f schema policy) policy.kept p,
      rw (checked, start, loaded, built, made) refl,
    )

-- `main` gets as far as listening exactly if one of `--opa` and `--opa-embed` is given and not both, the
-- body limit is not negative, a schema that is named loads, an embedded policy can be read and compiles
-- and its parameter file, if named, loads, and the upstream is an http or https URL with a host.
pub start_iff :
    (env : Environment) (f : Flags) → ((s : Server) × (start env f ≡ ready s)) ↔ IsStartable env f
start_iff env f = (λ (s, h). start_sound env f s h, start_complete env f)
