-- ===== src/Tests/Typed.antt =====
-- The sample server with a schema file.
use gql_firewall.Base.{Bytes, [], some, codes, ◌≡◌, refl, All, arith}
use gql_firewall.Opa.Store.{new_data_store}
use gql_firewall.Parser.Paths.{split_path}
use gql_firewall.Parser.Schema.{SchemaInfo, SchemaLibrary, load_schema_from_bytes, validate}
use gql_firewall.Proxy.Handler.{set_security_headers}
use gql_firewall.Proxy.Mediation.Evidence.{Inspected, Sent}
use gql_firewall.Proxy.Mediation.Queries.{queries}
use gql_firewall.Proxy.Upstream.Laws.{proxy_to}
use gql_firewall.Server.Admin.{shared}
use gql_firewall.Server.Evaluate.{Config}
use gql_firewall.Server.Pipeline.{composite}
use gql_firewall.Server.Serve.{serve_main}
use gql_firewall.Server.Serve.Changing.{server_at}
use gql_firewall.Server.Serve.Typed
use gql_firewall.Server.Serve.Typed.{IsWellTyped}
use gql_firewall.Server.Startup.{
  Flags, Environment, ready, Server, config_of, server_of, start, load_schema,
}
use gql_firewall.Server.Startup.Laws.{HasPolicy, built_policy}
use gql_firewall.Tests.Proxy.{sample_request, sent_request}
use gql_firewall.Tests.Samples.{find_fragment-FindsListed}
use gql_firewall.Tests.Serve.{first, arrival, blank_page, serving}
use gql_firewall.Tests.Server.{schema_library, sample_schema, find_field}
use gql_firewall.Tests.Startup.{
  sample_environment, sample_flags, sample_embedded, sample_urls, upstream_url, starting,
}

-- Every text is the sample schema.
abbrev typed_library : SchemaLibrary
typed_library = record schema_library {
  parse_schema = λ name text. some tt;
  validate_schema = λ doc. some sample_schema.schema;
}

abbrev typed_environment : Environment
typed_environment = record sample_environment {
  schemas = typed_library;
  read_file = λ path. some (codes "package graphql");
}

abbrev typed_flags : Flags
typed_flags = record sample_flags { schema = codes "schema.graphql" }

unfoldable typing : Unit {0}
unfolding serving starting load_schema load_schema_from_bytes validate split_path find_field
typing = tt

abbrev typed_HasPolicy : HasPolicy typed_environment typed_flags
unfolding typing
typed_HasPolicy = record {
  policy = codes "package graphql";
  read = refl;
  loaded = new_data_store;
  params = refl;
  compiled = sample_embedded;
  compiles = refl;
}

abbrev typed_config : Config
unfolding typing
typed_config =
    config_of typed_environment typed_flags (some sample_schema)
      (built_policy typed_environment typed_flags typed_HasPolicy)

abbrev typed_server : Server
unfolding typing
typed_server = server_of typed_flags typed_config shared (
    proxy_to sample_urls (record typed_environment.parts { evaluate = composite typed_config })
      upstream_url)

typed_starts : start typed_environment typed_flags ≡ ready typed_server
unfolding typing
typed_starts = refl

serve_main-IsWellTyped_example :
    (schema : SchemaInfo) × (load_schema typed_environment (codes "schema.graphql") ≡ some schema)
    × ((text : Bytes) × (i : Inspected
          (server_at new_data_store typed_server).proxy.handler
          (λ b. Unit {0})
          sample_request
          text)
        × Sent sample_request text (set_security_headers []) sent_request
        × All
            (IsWellTyped typed_server.proxy.handler.library typed_server.config.library
              schema.schema)
            (queries (server_at new_data_store typed_server).proxy.handler (λ b. Unit {0}) i))
unfolding typing
serve_main-IsWellTyped_example =
    Typed.serve_main-IsWellTyped blank_page typed_environment typed_flags typed_server
      new_data_store first
      (serve_main blank_page (server_at new_data_store typed_server) arrival first).1 arrival
      (set_security_headers []) sent_request typed_starts (λ e. ground arith)
      find_fragment-FindsListed refl refl
