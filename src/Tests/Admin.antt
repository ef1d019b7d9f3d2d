-- ===== src/Tests/Admin.antt =====
-- The admin API with a token, and the two middlewares around a handler that counts its calls.
use gql_firewall.Base.{◌≡◌, ◌≢◌, ◌⊎◌, ◌≤◌, ◌<◌, ◌+◌, ℕ, Bytes, [], ◌∷◌, some, none, refl, codes}
use gql_firewall.Opa.Store.{new_data_store}
use gql_firewall.Proxy.Http.{put, get, content, Method, Request, Response, Outcome, replied}
use gql_firewall.Ratelimit.{Limiter, token, new_limiter, allow}
use gql_firewall.Ratelimit.Credit.{credit}
use gql_firewall.Server.Middleware.{
  rate_limit_key, rate_limit_middleware, too_many_requests, require_admin_auth,
}
use gql_firewall.Server.Middleware.Laws
use gql_firewall.Server.Middleware.Laws.{IsAuthorized}
use gql_firewall.Server.Admin.{
  AdminState, AdminLibrary, decoded, shared, json_response, status_ok, max_config_bytes,
  handle_tenant,
}
use gql_firewall.Server.Admin.Laws as AdminLaws
use gql_firewall.Server.Admin.Laws.{IsWrite, MayEnter}

abbrev pub library : AdminLibrary
library = record {
  decode = λ n b. decoded (some []);
  encode_object = λ o. elim o [ none ↦ codes "null" | some m ↦ codes "{}" ];
  encode_names = λ ns. codes "[]";
  encode_stats = λ n. codes "{}";
}

abbrev pub admin_request : Method → Bytes → Request
admin_request method token = record {
  method = method;
  path = codes "/admin/tenants/acme";
  headers = (codes "Authorization", token) ∷ [];
  url_query = [];
  body = content (codes "{}");
  content_length = 2;
  remote_addr = codes "10.0.0.1:80";
  host = codes "firewall.local";
}

abbrev pub admin_state : AdminState
admin_state = record { store = new_data_store; evaluator = shared; events = [] }

abbrev counting : Request → ℕ → Outcome × ℕ
counting r n = (replied status_ok, n + 1)

abbrev counting_admin : Request → ℕ → Response × ℕ
counting_admin r n = (status_ok, n + 1)

require_admin_auth-cases_example :
    (((codes "s3cret" ≡ []) ⊎ IsAuthorized (codes "s3cret") (admin_request put (codes "s3cret")))
      × (require_admin_auth (codes "s3cret") counting_admin (admin_request put (codes "s3cret")) 4
          ≡ (status_ok, 5)))
    ⊎ ((codes "s3cret" ≢ [])
        × ¬ IsAuthorized (codes "s3cret") (admin_request put (codes "s3cret"))
        × ((require_admin_auth
              (codes "s3cret")
              counting_admin
              (admin_request put (codes "s3cret"))
              4).1
            ≡ 4)
        × (((require_admin_auth
                (codes "s3cret")
                counting_admin
                (admin_request put (codes "s3cret"))
                4).0.status
              ≡ 401)
            ⊎ ((require_admin_auth
                  (codes "s3cret")
                  counting_admin
                  (admin_request put (codes "s3cret"))
                  4).0.status
                ≡ 403)))
require_admin_auth-cases_example =
    Laws.require_admin_auth-cases (codes "s3cret") counting_admin
      (admin_request put (codes "s3cret")) 4

abbrev limits : Limiter
limits = new_limiter (record { requests_per_second = 1000000; burst = 1 })

rate_limit_middleware-cases_example :
    ((token ≤ credit limits (rate_limit_key (admin_request get [])) 9)
      × (rate_limit_middleware counting 8 9 (admin_request get []) (limits, 4)
          ≡ (replied status_ok, ((allow limits (rate_limit_key (admin_request get [])) 8 9).1, 5))))
    ⊎ ((credit limits (rate_limit_key (admin_request get [])) 9 < token)
        × (rate_limit_middleware counting 8 9 (admin_request get []) (limits, 4) ≡ (
          replied too_many_requests,
          ((allow limits (rate_limit_key (admin_request get [])) 8 9).1, 4),
        )))
rate_limit_middleware-cases_example =
    Laws.rate_limit_middleware-cases counting 8 9 (admin_request get []) limits 4

handle_tenant-get_example :
    ((put ≡ put) ⊎ (put ≡ Method.post)
      → library.decode max_config_bytes (content (codes "{}")) ≡ decoded (some [])
      → (handle_tenant library
          (admin_request get [])
          (handle_tenant library (admin_request put []) admin_state).1).0
        ≡ json_response (codes "{}"))
    × (put ≡ Method.delete
        → (handle_tenant library
            (admin_request get [])
            (handle_tenant library (admin_request put []) admin_state).1).0
          ≡ json_response (codes "null"))
handle_tenant-get_example =
    AdminLaws.handle_tenant-get library (admin_request put []) (admin_request get []) admin_state
      (some []) refl refl refl
