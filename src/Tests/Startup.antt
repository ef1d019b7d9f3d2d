-- ===== src/Tests/Startup.antt =====
-- A server with an embedded policy, an allowlist of operation names and two requests per second.
use gql_firewall.Base.{
  List, ◌∷◌, pos, true, false, [], none, some, codes, ◌≡◌, ◌↔◌, refl, if◌then◌else◌, bytes_equal,
  lookup, Map, insert, arith,
}
use gql_firewall.Opa.Json.{Json, array}
use gql_firewall.Opa.Embedded.{Embedded, new_embedded}
use gql_firewall.Opa.Store.{DataStore, new_data_store}
use gql_firewall.Parser.Schema.{SchemaLibrary}
use gql_firewall.Proxy.Upstream.{Url, Outgoing, UrlLibrary, new_proxy}
use gql_firewall.Proxy.Upstream.Laws as UpstreamLaws
use gql_firewall.Proxy.Upstream.Laws.{IsHttpUrl, GoesTo, proxy_to}
use gql_firewall.Ratelimit.{new_limiter}
use gql_firewall.Server.Admin.{shared}
use gql_firewall.Server.Evaluate.{Config}
use gql_firewall.Server.Evaluate.Outcomes.{asked}
use gql_firewall.Server.Pipeline.{composite}
use gql_firewall.Server.Startup.{
  Flags, Environment, ready, split_commas, names_json, allow_names, limiter_of, Server, config_of,
  server_of, start, load_params, check_flags, schema_of, policy_of, embedded_policy, proxy_of,
}
use gql_firewall.Server.Startup.Laws as StartupLaws
use gql_firewall.Server.Startup.Laws.{HasPolicy, IsStartable, built_policy}
use gql_firewall.Server.Startup.Laws.Names
use gql_firewall.Server.Startup.Laws.Names.{params_after}
use gql_firewall.Opa.Store.{Change, new_tenant, new_params, DataStore}
use gql_firewall.Opa.Store.Spec.{apply_changes}
use gql_firewall.Tests.Opa.{sample_engine}
use gql_firewall.Tests.Proxy.{judging}
use gql_firewall.Tests.Samples.{sample_info}

abbrev pub no_schemas : SchemaLibrary
no_schemas = record {
  SchemaDocument = Unit {0};
  parse_schema = λ name text. none;
  validate_schema = λ doc. none;
  field_for_name = λ fields name. none;
  quote = λ s. s;
}

abbrev pub upstream_url : Url
upstream_url = record { scheme = codes "http"; host = codes "up:80"; path = [] }

-- One URL, and a director that replaces scheme and host.
abbrev pub sample_urls : UrlLibrary
sample_urls = record {
  parse_url = λ text. if bytes_equal text (codes "http://up:80") then some upstream_url else none;
  single_host_director = λ u r. record r { scheme = u.scheme; url_host = u.host };
}

abbrev pub sample_environment : Environment
sample_environment = record {
  read_file = λ path.
      if bytes_equal path (codes "policy.rego") then some (codes "package graphql") else none;
  unmarshal = λ text. none;
  engine = sample_engine;
  schemas = no_schemas;
  http = record {
    marshal_input = λ i. none;
    post = λ url body. none;
    decode_result = λ body. none;
  };
  urls = sample_urls;
  parts = judging (
      composite (record {
        library = no_schemas;
        unmarshal = λ text. none;
        opa = λ input. none;
        opa_store = none;
        schema = none;
        cache_ttl = 0;
        opa_fail_closed = true;
        opa_audit_only = false;
      }));
}

abbrev pub sample_flags : Flags
sample_flags = record {
  upstream = codes "http://up:80";
  opa = [];
  opa_embed = codes "policy.rego";
  opa_params = [];
  schema = [];
  admin = [];
  admin_token = [];
  opa_cache_ttl = 60;
  opa_fail_closed = true;
  opa_audit_only = false;
  max_body_mb = pos 1;
  tls_cert = [];
  tls_key = [];
  metrics_listen = [];
  rate_limit = 2000000;
  rate_burst = 0;
  allowed_operation_names = codes "Q,R";
}

unfoldable pub starting : Unit {0}
unfolding bytes_equal insert lookup split_commas allow_names load_params new_embedded new_proxy
    check_flags schema_of policy_of embedded_policy proxy_of server_of config_of limiter_of start
    new_limiter
starting = tt

abbrev pub sample_store : DataStore
unfolding starting
sample_store = allow_names (codes "Q,R") new_data_store

abbrev pub sample_embedded : Embedded sample_engine
sample_embedded = record {
  prepared = some (codes "data.graphql.allow");
  prepared_deny = some (codes "data.graphql.deny");
  store = sample_store;
  policy = codes "package graphql";
}

abbrev sample_HasPolicy : HasPolicy sample_environment sample_flags
unfolding starting
sample_HasPolicy = record {
  policy = codes "package graphql";
  read = refl;
  loaded = new_data_store;
  params = refl;
  compiled = sample_embedded;
  compiles = refl;
}

start_iff_example :
    ((s : Server) × (start sample_environment sample_flags ≡ ready s))
    ↔ IsStartable sample_environment sample_flags
start_iff_example = StartupLaws.start_iff sample_environment sample_flags

abbrev sample_config : Config
unfolding starting
sample_config =
    config_of sample_environment sample_flags none
      (built_policy sample_environment sample_flags sample_HasPolicy)

abbrev pub sample_server : Server
unfolding starting
sample_server = server_of sample_flags sample_config shared (
    proxy_to sample_urls (record sample_environment.parts { evaluate = composite sample_config })
      upstream_url)

pub sample_starts : start sample_environment sample_flags ≡ ready sample_server
unfolding starting
sample_starts = refl

-- A tenant is stored, and then the rules are emptied.
abbrev admin_changes : List Change
admin_changes = new_tenant (codes "acme") none ∷ new_params (some []) ∷ []

start-allowed_names_example :
    (store : DataStore) × (params : Map Json) × (sample_server.config.opa_store ≡ some store)
    × (lookup (codes "allowed_operation_names") params
        ≡ some (array (names_json (split_commas (codes "Q,R")))))
    × ((asked
          (record sample_server.config { opa_store = some (apply_changes admin_changes store) })
          sample_info).params
        ≡ params_after admin_changes (some params))
start-allowed_names_example =
    Names.start-allowed_names sample_environment sample_flags sample_server sample_info
      admin_changes refl (λ e. ground arith) sample_starts

new_proxy-GoesTo_example :
    (u : Url) × (sample_urls.parse_url (codes "http://up:80") ≡ some u)
    × IsHttpUrl u
    × ((r : Outgoing) → GoesTo u (sample_server.proxy.director r))
unfolding starting
new_proxy-GoesTo_example =
    UpstreamLaws.new_proxy-GoesTo sample_urls sample_environment.parts (codes "http://up:80")
      (proxy_to sample_urls sample_environment.parts upstream_url) (λ u r. (refl, refl)) refl
