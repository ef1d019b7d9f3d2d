-- ===== src/Metrics.antt =====
-- internal/metrics/metrics.go: the Prometheus counters are outside the model, and what is recorded in
-- them is a list of events, the oldest first. A duration is not kept.
use gql_firewall.Base.{ℕ, Bytes, List, [], ◌∷◌, ◌++◌}

pub data Event : Type 0 where
  requests_total : (outcome operation_type : Bytes) → Event
  requests_blocked : (reason : Bytes) → Event
  rule_evaluations : (rule : Bytes) → Event
  opa_requests : (outcome : Bytes) → Event
  opa_audit_blocks : (reason : Bytes) → Event
  config_reloads : Event
  active_tenants : ℕ → Event

abbrev pub Events : Type 0
Events = List Event

abbrev pub record_request : Bytes → Bytes → Events → Events
record_request outcome operation_type log = log ++ requests_total outcome operation_type ∷ []

abbrev pub record_block : Bytes → Events → Events
record_block reason log = log ++ requests_blocked reason ∷ []

abbrev pub record_rule_eval : Bytes → Events → Events
record_rule_eval rule log = log ++ rule_evaluations rule ∷ []

abbrev pub record_opa : Bytes → Events → Events
record_opa outcome log = log ++ opa_requests outcome ∷ []

abbrev pub record_opa_audit_block : Bytes → Events → Events
record_opa_audit_block reason log = log ++ opa_audit_blocks reason ∷ []
