-- ===== src/Server/Startup/Laws/Wiring.antt =====
-- How the parts of a started server (main.go) hang together.
use gql_firewall.Base.{
  ◌≢◌, [], Option-cases, inl, inr, arith, is_empty, if◌then◌else◌, none, some, false, ◌≡◌, refl, ap,
  subst,
}
use gql_firewall.Parser.Schema.{SchemaInfo}
use gql_firewall.Proxy.Upstream.Laws.{new_proxy_iff}
use gql_firewall.Server.Pipeline.{composite}
use gql_firewall.Server.Startup.{
  Flags, Environment, Startup, fatal, ready, body_limit, limiter_of, config_of, server_of, Server,
  start, Policy, policy_of, load_schema, schema_of,
}
use gql_firewall.Server.Startup.Laws.{start-Started, proxy_of-ready}

-- The proxy asks the composite evaluator of the same configuration, which has the flags' modes, and has the
-- flag's body limit, panics are recovered, the limiter is that of the flags, and the
-- admin API, if it is started, has the flag's token.
pub record IsWired (f : Flags) (s : Server) : Type 0 where
  pub evaluator : s.proxy.handler.evaluate ≡ composite s.config
  pub fail_closed : s.config.opa_fail_closed ≡ f.opa_fail_closed
  pub audit_only : s.config.opa_audit_only ≡ f.opa_audit_only
  pub body_limit : s.proxy.handler.max_body_bytes ≡ body_limit f.max_body_mb
  pub recovers : s.proxy.handler.disable_panic_recovery ≡ false
  pub limiter : s.limiter ≡ limiter_of f
  pub admin : s.admin ≡ (if is_empty f.admin then none else some f.admin_token)

AllReady : (Server → Type 0) → Startup Server → Type 0
AllReady P (ready s) = P s
AllReady P (fatal e) = Unit

pub start-IsWired :
    (env : Environment) (f : Flags) (s : Server) → start env f ≡ ready s → IsWired f s
unfolding server_of config_of AllReady
start-IsWired env f s h =
    let t = start-Started env f s h in
    let c = config_of env f t.schema t.policy in
    let made = proxy_of-ready env c f.upstream t.proxy t.made in
    let (u, e, http, same) = (new_proxy_iff env.urls _ f.upstream t.proxy).0 made in
    subst (AllReady (IsWired f)) t.server (record {
      evaluator = ap (λ p. p.handler.evaluate) same;
      fail_closed = refl;
      audit_only = refl;
      body_limit = refl;
      admin = refl;
      limiter = refl;
      recovers = ap (λ p. p.handler.disable_panic_recovery) same;
    })

-- The answers of OPA are those of the policy that the flags choose.
pub start-policy :
    (env : Environment) (f : Flags) (s : Server)
    → start env f ≡ ready s
    → (p : Policy) × (policy_of env f ≡ ready p) × (s.config.opa ≡ p.evaluator.evaluate)
unfolding server_of config_of AllReady
start-policy env f s h =
    let t = start-Started env f s h in
    (
      t.policy,
      t.built,
      subst (AllReady (λ s. s.config.opa ≡ t.policy.evaluator.evaluate)) t.server refl,
    )

-- A server that is started with the name of a schema file validates with the schema of that file.
pub start-schema :
    (env : Environment) (f : Flags) (s : Server)
    → start env f ≡ ready s
    → f.schema ≢ []
    → (info : SchemaInfo) × (load_schema env f.schema ≡ some info) × (s.config.schema ≡ some info)
unfolding server_of config_of AllReady schema_of
start-schema env f s h named =
    let t = start-Started env f s h in
    let same : s.config.schema ≡ t.schema =
      subst (AllReady (λ s. s.config.schema ≡ t.schema)) t.server refl in
    elim (Option-cases (load_schema env f.schema)) [
      | inl missing ↦ absurd (ground arith)
      | inr (info, found) ↦ (info, found, ground arith)
    ]
