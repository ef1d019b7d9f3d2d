-- ===== src/Server/Serve/AdminPort.antt =====
-- Who can change the rules of a started server (main.go).
use gql_firewall.Base.{
  Bytes, [], none, some, is_empty, if◌then◌else◌, ◌≡◌, ◌≢◌, ◌⊎◌, ◌∙◌, inl, inr, sym, ap, arith,
  Bool, true, false,
}
use gql_firewall.Proxy.Http.{Request, Response}
use gql_firewall.Server.Admin.{AdminLibrary, AdminState, admin_mux}
use gql_firewall.Server.Admin.Laws.{IsWrite, MayEnter, admin_mux-changes}
use gql_firewall.Server.Middleware.Laws.{IsAuthorized}
use gql_firewall.Server.Serve.{serve_admin}
use gql_firewall.Server.Startup.{Flags, Environment, Server, ready, start}
use gql_firewall.Server.Startup.Laws.Wiring.{start-IsWired}

serve_admin-admin_mux :
    (lib : AdminLibrary) (s : Server) (token : Bytes) (b : Bool) (r : Request) (a a' : AdminState)
    (response : Response)
    → s.admin ≡ (if b then none else some token)
    → serve_admin lib s r a ≡ some (response, a')
    → (admin_mux lib token r a).1 ≡ a'
unfolding serve_admin
serve_admin-admin_mux lib s token true r a a' response e h = absurd (ground arith)
serve_admin-admin_mux lib s token false r a a' response e h =
    let run : some (admin_mux lib token r a) ≡ some (response, a') = rw (e, serve_admin) at h in
    let both : admin_mux lib token r a ≡ (response, a') = cc in ap (λ p. p.1) both

-- A server started with `--admin-token` answers no request on its admin port, if it has one, by a change
-- of the rules, the tenants or the metrics, unless the request has that token and is a POST, PUT or
-- DELETE.
pub serve_admin-changes :
    (env : Environment) (f : Flags) (s : Server) (lib : AdminLibrary) (r : Request)
    (a a' : AdminState) (response : Response)
    → start env f ≡ ready s
    → f.admin_token ≢ []
    → serve_admin lib s r a ≡ some (response, a')
    → (a' ≡ a) ⊎ (IsAuthorized f.admin_token r × IsWrite r.method)
unfolding MayEnter
serve_admin-changes env f s lib r a a' response started set e =
    let wired = start-IsWired env f s started in
    let done =
      serve_admin-admin_mux lib s f.admin_token (is_empty f.admin) r a a' response wired.admin e in
    elim (admin_mux-changes lib f.admin_token r a) [
      | inl same ↦ inl (sym done ∙ same)
      | inr (inl unset, write) ↦ absurd (set unset)
      | inr (inr authorized, write) ↦ inr (authorized, write)
    ]
