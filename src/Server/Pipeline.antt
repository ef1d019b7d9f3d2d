-- ===== src/Server/Pipeline.antt =====
-- The evaluator that `main` (main.go) hands to the proxy: compositeEvaluator.Evaluate behind the
-- interface of proxy.go. It never fails and never panics by itself.
use gql_firewall.Base.{ℕ, ◌+◌, ◌*◌, Map}
use gql_firewall.Parser.Info.{QueryInfo}
use gql_firewall.Proxy.Handler.{Verdict, decided, World}
use gql_firewall.Server.Evaluate.{Config, CachedDecision, evaluate}

-- The state behind the evaluator: its cache, and the clock, with how many evaluations have read it. The
-- evaluation `n` reads it at the cache lookup and at the cache write.
pub record Backend : Type 0 where
  pub cache : Map CachedDecision
  pub clock : ℕ → ℕ
  pub evaluations : ℕ

abbrev pub lookup_time : Backend → ℕ
lookup_time b = b.clock (2 * b.evaluations)

abbrev pub store_time : Backend → ℕ
store_time b = b.clock (2 * b.evaluations + 1)

unfoldable pub composite : Config → QueryInfo → World Backend → Verdict × World Backend
composite c info w =
    let b = w.state in
    let (result, s) =
      evaluate c (lookup_time b) (store_time b) info
        (record { cache = b.cache; events = w.events }) in
    (
      decided result,
      record {
        state = record b { cache = s.cache; evaluations = b.evaluations + 1 };
        events = s.events;
      },
    )
