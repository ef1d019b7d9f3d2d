-- ===== src/Tests/AdminPort.antt =====
-- A server with an admin port and a token, and a request that has it.
use gql_firewall.Base.{some, codes, ◌≡◌, ◌⊎◌, refl, arith}
use gql_firewall.Proxy.Http.{put}
use gql_firewall.Server.Admin.{AdminState, admin_mux}
use gql_firewall.Server.Admin.Laws.{IsWrite}
use gql_firewall.Server.Middleware.Laws.{IsAuthorized}
use gql_firewall.Server.Serve.{serve_admin}
use gql_firewall.Server.Serve.AdminPort
use gql_firewall.Server.Startup.{Flags, Server, ready, start}
use gql_firewall.Tests.Admin.{library, admin_request, admin_state}
use gql_firewall.Tests.Startup.{sample_environment, sample_flags, sample_server, starting}

abbrev admin_flags : Flags
admin_flags = record sample_flags { admin = codes ":8082"; admin_token = codes "s3cret" }

abbrev admin_server : Server
admin_server = record sample_server { admin = some (codes "s3cret") }

admin_starts : start sample_environment admin_flags ≡ ready admin_server
unfolding starting
admin_starts = refl

abbrev changed : AdminState
changed =
    (admin_mux library (codes "s3cret") (admin_request put (codes "Bearer s3cret")) admin_state).1

serve_admin-changes_example :
    (changed ≡ admin_state)
    ⊎ (IsAuthorized (codes "s3cret") (admin_request put (codes "Bearer s3cret")) × IsWrite put)
unfolding serve_admin
serve_admin-changes_example =
    AdminPort.serve_admin-changes sample_environment admin_flags admin_server library
      (admin_request put (codes "Bearer s3cret")) admin_state changed
      (admin_mux library (codes "s3cret") (admin_request put (codes "Bearer s3cret")) admin_state).0
      admin_starts (λ e. ground arith) refl
