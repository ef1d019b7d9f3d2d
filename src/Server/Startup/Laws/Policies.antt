-- ===== src/Server/Startup/Laws/Policies.antt =====
-- What a decision of OPA rests on in a server that `main` (main.go) started: the answer of the sidecar
-- (sidecar.go), or the policy file (embed.go).
use gql_firewall.Base.{
  ◌==◌, is_empty, >>=-eq-some, ==_iff, Bytes, true, false, List, [], Option, none, some, codes, ◌≡◌,
  ◌≢◌, ◌⊎◌, inl, inr, refl, sym, ap, subst, ◌∙◌, Bool-cases, arith,
}
use gql_firewall.Opa.Json.{bool, Result}
use gql_firewall.Opa.Input.{Input}
use gql_firewall.Opa.Evaluators.{Http, HttpResponse, read_response, sidecar_evaluate}
use gql_firewall.Opa.Embedded.{RegoResult, first_expression}
use gql_firewall.Opa.Embedded.Laws.{new_embedded-IsReady, embedded_evaluate_iff}
use gql_firewall.Server.Startup.{
  Environment, Flags, Startup, ready, Policy, Server, sidecar_policy, policy_of, start,
}
use gql_firewall.Server.Startup.Laws.{HasPolicy, built_policy, embedded_policy-eq-ready}
use gql_firewall.Server.Startup.Laws.Wiring.{start-policy}

-- The sidecar answered 200 to the input, with a body that decodes to an allowed result.
pub record SidecarAllows (http : Http) (endpoint : Bytes) (input : Input) : Type 0 where
  pub body : Bytes
  pub marshalled : http.marshal_input input ≡ some body
  pub response : HttpResponse
  pub posted : http.post endpoint body ≡ some (some response)
  pub status : response.status_code ≡ 200
  pub verdict : Result
  pub decoded : http.decode_result response.body ≡ some verdict
  pub allowed : verdict.allowed ≡ true

-- The allow query of the policy in the file gave `true` for the input.
pub record FileAllows (env : Environment) (path : Bytes) (input : Input) : Type 0 where
  pub policy : Bytes
  pub read : env.read_file path ≡ some policy
  pub query : env.engine.Prepared
  pub compiled : env.engine.prepare (codes "data.graphql.allow") policy ≡ some query
  pub results : List RegoResult
  pub evaluated : env.engine.eval query input ≡ some results
  pub says_true : first_expression results ≡ some (bool true)

abbrev pub PolicySays : Environment → Flags → Input → Type 0
PolicySays env f input =
    ((f.opa ≢ []) × SidecarAllows env.http f.opa input)
    ⊎ ((f.opa ≡ []) × FileAllows env f.opa_embed input)

read_response-some :
    (http : Http) (o : Option HttpResponse) (r : Result)
    → read_response http o ≡ some r
    → (resp : HttpResponse) × (o ≡ some resp)
      × (resp.status_code ≡ 200)
      × (http.decode_result resp.body ≡ some r)
unfolding read_response
read_response-some http none r h = absurd (ground arith)
read_response-some http (some resp) r h = elim (Bool-cases (resp.status_code == 200)) [
  | inl good ↦ (resp, refl, (==_iff resp.status_code 200).0 good, rw good at h)
  | inr bad ↦ absurd (ground arith)
]

-- A client with an endpoint.
sidecar_evaluate-SidecarAllows :
    (http : Http) (endpoint : Bytes) (input : Input) (r : Result)
    → is_empty endpoint ≡ false
    → sidecar_evaluate http endpoint input ≡ some r
    → r.allowed ≡ true
    → SidecarAllows http endpoint input
unfolding sidecar_evaluate
sidecar_evaluate-SidecarAllows http endpoint input r there h yes_ =
    let (body, marshalled, h1) = >>=-eq-some (http.marshal_input input) _ (rw there at h) in
    let (o, posted, h2) = >>=-eq-some (http.post endpoint body) _ h1 in
    let (resp, is_there, good, decoded) = read_response-some http o r h2 in
    record {
      body = body;
      marshalled = marshalled;
      response = resp;
      posted = posted ∙ ap some is_there;
      status = good;
      verdict = r;
      decoded = decoded;
      allowed = yes_;
    }

built_policy-FileAllows :
    (env : Environment) (f : Flags) (h : HasPolicy env f) (input : Input) (r : Result)
    → (built_policy env f h).evaluator.evaluate input ≡ some r
    → r.allowed ≡ true
    → FileAllows env f.opa_embed input
built_policy-FileAllows env f h input r answer yes_ =
    let (prepared, same, filled) = new_embedded-IsReady env.engine _ h.compiled h.compiles in
    let (rs, evaluated, first) =
      (embedded_evaluate_iff env.engine h.compiled input prepared).0 (r, answer, yes_) in
    record {
      policy = h.policy;
      read = h.read;
      query = prepared.allow;
      compiled =
          ap (env.engine.prepare (codes "data.graphql.allow")) (sym same) ∙ prepared.compiled_allow;
      results = rs;
      evaluated = evaluated;
      says_true = first;
    }

AllowsAt : Input → Startup Policy → Type 0
AllowsAt input (ready p) = (r : Result) × (p.evaluator.evaluate input ≡ some r) × (r.allowed ≡ true)
AllowsAt input m = Unit

policy_of-PolicySays :
    (env : Environment) (f : Flags) (p : Policy) (input : Input) (r : Result)
    → policy_of env f ≡ ready p
    → p.evaluator.evaluate input ≡ some r
    → r.allowed ≡ true
    → PolicySays env f input
unfolding policy_of sidecar_policy AllowsAt
policy_of-PolicySays env f p input r built answer yes_ = elim (Bool-cases (is_empty f.opa)) [
  | inr there ↦
      let same : ready p ≡ ready (sidecar_policy env f) = sym (rw there at built) in
      let (r', answer', yes') = subst (AllowsAt input) same (r, answer, yes_) in
      inl (
        (λ e. ground arith),
        sidecar_evaluate-SidecarAllows env.http f.opa input r' there answer' yes',
      )
  | inl empty ↦
      let (h, same) = embedded_policy-eq-ready env f p (rw empty at built) in
      let (r', answer', yes') = subst (AllowsAt input) (sym same) (r, answer, yes_) in
      inr (ground arith, built_policy-FileAllows env f h input r' answer' yes')
]

-- In a started server OPA allows an input only if the sidecar or the policy file does.
pub start-PolicySays :
    (env : Environment) (f : Flags) (s : Server) (input : Input) (r : Result)
    → start env f ≡ ready s
    → s.config.opa input ≡ some r
    → r.allowed ≡ true
    → PolicySays env f input
start-PolicySays env f s input r started answer yes_ =
    let (p, built, same) = start-policy env f s started in
    policy_of-PolicySays env f p input r built (ap (λ g. g input) (sym same) ∙ answer) yes_
