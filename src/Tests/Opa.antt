-- ===== src/Tests/Opa.antt =====
-- The data store and the embedded evaluator on small inputs.
use gql_firewall.Base.{
  List, lookup, Bytes, true, List, [], ◌∷◌, none, some, codes, ◌≡◌, ◌↔◌, refl, bytes_equal,
  if◌then◌else◌, Map,
}
use gql_firewall.Opa.Json.{Json, bool, number, str, array, Items, Result}
use gql_firewall.Opa.Store.{DataStore}
use gql_firewall.Opa.Store.Spec
use gql_firewall.Opa.Store.Spec.{Implements, apply_changes, change_views, empty_view}
use gql_firewall.Opa.Store.{new_data_store, Change, new_params, new_tenant, no_tenant}
use gql_firewall.Opa.Input.{Input, build_input}
use gql_firewall.Opa.Embedded.{
  RegoResult, Engine, EmbedConfig, first_expression, Embedded, new_embedded, embedded_evaluate,
}
use gql_firewall.Opa.Embedded.Laws as EmbeddedLaws
use gql_firewall.Opa.Embedded.Laws.{IsReady}
use gql_firewall.Tests.Samples.{sample_info}

abbrev limit : Map Json
limit = (codes "depth_limit", number (codes "10")) ∷ []

abbrev sample_store : DataStore
sample_store = record { params = some limit; tenants = (codes "acme", some limit) ∷ [] }

-- An engine whose two queries are told apart by a number; the deny query gives one reason.
abbrev pub sample_engine : Engine
sample_engine = record {
  Prepared = Bytes;
  prepare = λ query policy. some query;
  eval = λ query input.
      if bytes_equal query (codes "data.graphql.allow")
      then some (record { expressions = bool true ∷ [] } ∷ [])
      else some
          (record { expressions = array (Items.cons (str (codes "no")) Items.nil) ∷ [] } ∷ []);
}

abbrev sample_config : EmbedConfig
sample_config = record { policy = codes "package graphql"; store = some sample_store }

abbrev sample_embedded : Embedded sample_engine
sample_embedded = record {
  prepared = some (codes "data.graphql.allow");
  prepared_deny = some (codes "data.graphql.deny");
  store = sample_store;
  policy = codes "package graphql";
}

sample_embedded_built : new_embedded sample_engine sample_config ≡ some sample_embedded
unfolding new_embedded
sample_embedded_built = refl

sample_ready : IsReady sample_engine sample_embedded
sample_ready = record {
  allow = codes "data.graphql.allow";
  deny = codes "data.graphql.deny";
  has_allow = refl;
  has_deny = refl;
  compiled_allow = refl;
  compiled_deny = refl;
}

abbrev sample_input : Input
sample_input = build_input (λ s. none) sample_info (some sample_store)

embedded_evaluate_iff_example :
    ((r : Result) × (embedded_evaluate sample_engine sample_embedded sample_input ≡ some r)
      × (r.allowed ≡ true))
    ↔ ((rs : List RegoResult) × (sample_engine.eval sample_ready.allow sample_input ≡ some rs)
        × (first_expression rs ≡ some (bool true)))
embedded_evaluate_iff_example =
    EmbeddedLaws.embedded_evaluate_iff sample_engine sample_embedded sample_input sample_ready

abbrev sample_changes : List Change
sample_changes =
    new_params (some limit)
    ∷ new_tenant (codes "acme") none
    ∷ new_tenant (codes "other") (some limit)
    ∷ no_tenant (codes "acme")
    ∷ []

apply_changes-Implements_example :
    Implements
      (apply_changes sample_changes new_data_store)
      (change_views sample_changes empty_view)
unfolding lookup
apply_changes-Implements_example =
    Spec.apply_changes-Implements sample_changes ((refl, tt), (tt, (tt, (tt, tt))))
