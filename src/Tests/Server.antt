-- ===== src/Tests/Server.antt =====
-- The composite evaluator: a denial by OPA, and two tenants that share a cached decision.
use gql_firewall.Base.{
  ◌≢◌, length, not, ◌<◌, Bytes, true, false, List, [], ◌∷◌, Option, none, some, codes, ◌≡◌, ◌↔◌,
  refl, lookup, insert, bytes_equal, if◌then◌else◌, arith, All,
}
use gql_firewall.Opa.Json.{Result}
use gql_firewall.Opa.Input.{Input, build_input}
use gql_firewall.Parser.Info.{QueryInfo, zero_info}
use gql_firewall.Parser.Paths.{split_path}
use gql_firewall.Parser.Walk.{is_visited}
use gql_firewall.Parser.Schema.{
  absent, type_ref, FieldDefinition, Definition, SchemaInfo, SchemaLibrary, validate,
}
use gql_firewall.Parser.Schema.Typing
use gql_firewall.Parser.Schema.Typing.{Accepted}
use gql_firewall.Server.CacheKey.{decision_cache_key}
use gql_firewall.Server.Evaluate.{
  Config, State, CachedDecision, schema_refusal, cache_lookup, evaluate,
}
use gql_firewall.Server.Evaluate.Outcomes
use gql_firewall.Server.Evaluate.Outcomes.{PolicyAllows, asked, cached_at}
use gql_firewall.Server.Evaluate.History
use gql_firewall.Server.Evaluate.History.{Call, MadeBy, run}
use gql_firewall.Server.Evaluate.Sharing
use gql_firewall.Server.Evaluate.Growth
use gql_firewall.Tests.Samples.{sample_info}

unfoldable pub find_field : List FieldDefinition → Bytes → Option FieldDefinition
find_field [] n = none
find_field (f ∷ fs) n = if bytes_equal f.name n then some f else find_field fs n

abbrev pub schema_library : SchemaLibrary
schema_library = record {
  SchemaDocument = Unit {0};
  parse_schema = λ name text. none;
  validate_schema = λ doc. none;
  field_for_name = find_field;
  quote = λ s. s;
}

-- type Query { me: User }  type User { name: String  posts: Post }
abbrev user_type : Definition
user_type = record {
  name = codes "User";
  fields =
      record { name = codes "name"; field_type = type_ref (codes "String") absent }
      ∷ record { name = codes "posts"; field_type = type_ref [] (type_ref (codes "Post") absent) }
      ∷ [];
}

abbrev pub sample_schema : SchemaInfo
sample_schema = record {
  schema = record {
    query = some (record {
      name = codes "Query";
      fields = record { name = codes "me"; field_type = type_ref (codes "User") absent } ∷ [];
    });
    mutation = none;
    subscription = none;
    types = (codes "User", user_type) ∷ [];
  };
  type_count = 1;
}

program : Unit {0}
unfolding split_path is_visited validate lookup insert bytes_equal find_field decision_cache_key
    cache_lookup evaluate build_input
program = tt

-- The sample is accepted, with a list of posts behind a wrapper type.
validate_sample : validate schema_library sample_schema sample_info ≡ (true, [])
unfolding program
validate_sample = refl

validate_iff_example :
    (validate schema_library sample_schema sample_info ≡ (true, []))
    ↔ All
        (Accepted schema_library sample_schema.schema sample_info.operation_type)
        sample_info.field_paths
validate_iff_example = Typing.validate_iff schema_library sample_schema sample_info

-- OPA allows the tenant "acme" and no other.
abbrev acme_only : Input → Option Result
acme_only input =
    some (record { allowed = bytes_equal input.tenant_id (codes "acme"); reason = codes "tenant" })

abbrev sample_config : Config
sample_config = record {
  library = schema_library;
  unmarshal = λ s. none;
  opa = acme_only;
  opa_store = none;
  schema = some sample_schema;
  cache_ttl = 60;
  opa_fail_closed = true;
  opa_audit_only = false;
}

abbrev empty_state : State
empty_state = record { cache = []; events = [] }

abbrev by_tenant : Bytes → QueryInfo
by_tenant id = record sample_info { tenant_id = id }

abbrev acme : QueryInfo
acme = by_tenant (codes "acme")

abbrev mallory : QueryInfo
mallory = by_tenant (codes "mallory")

abbrev allowed_tenant : Result
allowed_tenant = record { allowed = true; reason = codes "tenant" }

mallory_alone : (evaluate sample_config 5 6 mallory empty_state).0.allowed ≡ false
unfolding program
mallory_alone = refl

-- Two fields side by side: { first second }.
abbrev two_fields : Bytes → Bytes → QueryInfo
two_fields first second = record zero_info {
  operation_type = codes "query";
  depth = 1;
  field_count = 2;
  field_paths = first ∷ second ∷ [];
}

-- OPA refuses the path "c".
abbrev not_c : Input → Option Result
not_c input =
    some
      (record { allowed = not (is_visited (codes "c") input.field_paths); reason = codes "fields" })

abbrev not_c_config : Config
not_c_config = record sample_config { opa = not_c; schema = none }

abbrev allowed_fields : Result
allowed_fields = record { allowed = true; reason = codes "fields" }

second_alone :
    (evaluate not_c_config 5 6 (two_fields (codes "ab") (codes "c")) empty_state).0.allowed ≡ false
unfolding program
second_alone = refl

evaluate_iff_example : ((evaluate sample_config 5 6 mallory empty_state).0.allowed ≡ true) ↔ (
    (schema_refusal sample_config mallory ≡ none)
    × PolicyAllows sample_config 5 mallory empty_state)
evaluate_iff_example = Outcomes.evaluate_iff sample_config 5 6 mallory empty_state

abbrev one_call : List Call
one_call = record { info = acme; now = 5; later = 6 } ∷ []

cached-MadeBy_example :
    (d : CachedDecision) × MadeBy sample_config one_call (decision_cache_key mallory) d
    × (d.result ≡ allowed_tenant)
    × (50 < d.expiry)
unfolding program run
cached-MadeBy_example =
    History.cached-MadeBy sample_config one_call empty_state mallory 50 allowed_tenant refl refl

abbrev a_query : QueryInfo
a_query = two_fields (codes "a") (codes "b")

abbrev the_mutation : QueryInfo
the_mutation = record a_query { operation_type = codes "mutation" }

-- The second call comes long after the first entry has expired.
abbrev two_calls : List Call
two_calls =
    record { info = the_mutation; now = 5000; later = 5001 }
    ∷ record { info = a_query; now = 5; later = 6 }
    ∷ []

a_query-ne-the_mutation : decision_cache_key a_query ≢ decision_cache_key the_mutation
unfolding decision_cache_key
a_query-ne-the_mutation e = ground arith

run-length_example : length (run not_c_config two_calls empty_state).cache ≡ 2
unfolding schema_refusal is_visited build_input bytes_equal
run-length_example = Growth.run-length not_c_config two_calls empty_state (omega arith) refl (
  record {
    accepted = refl;
    answer = allowed_fields;
    answered = refl;
    other_keys = (a_query-ne-the_mutation, tt);
  },
  (record { accepted = refl; answer = allowed_fields; answered = refl; other_keys = tt }, tt),
)
