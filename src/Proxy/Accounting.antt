-- ===== src/Proxy/Accounting.antt =====
-- What ServeHTTP (proxy.go) counts in gql_firewall_requests_total.
pub mod Flow
use gql_firewall.Base.{
  ℕ, Bytes, false, List, [], ◌∷◌, ◌++◌, append-nil, ◌==◌, if◌then◌else◌, codes, ◌≡◌, ◌∙◌, refl, ap,
}
use gql_firewall.Metrics.{
  Event, requests_total, requests_blocked, rule_evaluations, opa_requests, opa_audit_blocks,
  config_reloads, active_tenants, Events, record_request, record_block,
}
use gql_firewall.Opa.Json.{Result}
use gql_firewall.Parser.Info.{QueryInfo}
use gql_firewall.Proxy.Batch.{ItemResult, passed, stopped}
use gql_firewall.Proxy.Handler.{
  World, Handler, Run, fail_with, fail_text, block, blocked_response, forward,
}
use gql_firewall.Proxy.Http.{Request, Outcome, replied, forwarded, panicked, http_error}

-- The outcomes of the requests that are counted, in order.
unfoldable pub outcomes : Events → List Bytes
outcomes [] = []
outcomes (requests_total outcome kind ∷ log) = outcome ∷ outcomes log
outcomes (e ∷ log) = outcomes log

-- How the end of a request is counted: "allowed" if it is forwarded, "blocked" if it is answered 403, and
-- else "error"; not at all while it is a panic.
abbrev pub labels : Outcome → List Bytes
labels (forwarded headers r) = codes "allowed" ∷ []
labels (replied response) = (if response.status == 403 then codes "blocked" else codes "error") ∷ []
labels panicked = []

pub outcomes-append : (log log' : Events) → outcomes (log ++ log') ≡ outcomes log ++ outcomes log'
unfolding outcomes
outcomes-append [] log' = refl
outcomes-append (requests_total outcome kind ∷ log) log' =
    ap (λ l. outcome ∷ l) (outcomes-append log log')
outcomes-append (requests_blocked reason ∷ log) log' = outcomes-append log log'
outcomes-append (rule_evaluations rule ∷ log) log' = outcomes-append log log'
outcomes-append (opa_requests outcome ∷ log) log' = outcomes-append log log'
outcomes-append (opa_audit_blocks reason ∷ log) log' = outcomes-append log log'
outcomes-append (config_reloads ∷ log) log' = outcomes-append log log'
outcomes-append (active_tenants n ∷ log) log' = outcomes-append log log'

outcomes-record_request :
    (outcome kind : Bytes) (log : Events)
    → outcomes (record_request outcome kind log) ≡ outcomes log ++ outcome ∷ []
unfolding outcomes
outcomes-record_request outcome kind log = outcomes-append log (requests_total outcome kind ∷ [])

-- An event of another kind.
pub outcomes-quiet :
    (e : Event) (log : Events) → outcomes (e ∷ []) ≡ [] → outcomes (log ++ e ∷ []) ≡ outcomes log
outcomes-quiet e log quiet =
    outcomes-append log (e ∷ []) ∙ ap (λ l. outcomes log ++ l) quiet ∙ append-nil (outcomes log)

-- An evaluator that counts no request itself.
abbrev pub IsQuiet : {S : Type 0} → Handler S → Type 0
IsQuiet {S} h =
    (info : QueryInfo) (w : World S) → outcomes (h.evaluate info w).1.events ≡ outcomes w.events

module _ {S : Type 0} (h : Handler S) (quiet : IsQuiet h) (past : List Bytes) where
  -- A run after which its end is counted, behind what was counted before.
  abbrev IsCounted : Run S → Type 0
  IsCounted run = outcomes run.1.events ≡ past ++ labels run.0

  abbrev ItemIsCounted : ItemResult S → Type 0
  ItemIsCounted (passed kind w) = outcomes w.events ≡ past
  ItemIsCounted (stopped run) = IsCounted run

  abbrev IsAt : World S → Type 0
  IsAt w = outcomes w.events ≡ past

  recorded :
      (outcome kind : Bytes) (log : Events)
      → outcomes log ≡ past
      → outcomes (record_request outcome kind log) ≡ past ++ outcome ∷ []
  recorded outcome kind log at =
      outcomes-record_request outcome kind log ∙ ap (λ l. l ++ outcome ∷ []) at

  fail_with-IsCounted :
      (message : Bytes) (status : ℕ) (kind : Bytes) (w : World S)
      → (status == 403) ≡ false
      → IsAt w
      → IsCounted (fail_with h message status kind w)
  unfolding fail_with http_error
  fail_with-IsCounted message status kind w other at =
      rw other (recorded (codes "error") kind w.events at)

  fail_text-IsCounted :
      (message : Bytes) (w : World S) → IsAt w → IsCounted (fail_text h message 400 w)
  unfolding fail_text http_error
  fail_text-IsCounted message w at = recorded (codes "error") (codes "unknown") w.events at

  block-IsCounted :
      (result : Result) (kind : Bytes) (w : World S) → IsAt w → IsCounted (block h result kind w)
  unfolding block blocked_response outcomes
  block-IsCounted result kind w at =
      recorded (codes "blocked") kind (record_block result.reason w.events)
        (outcomes-quiet (requests_blocked result.reason) w.events refl ∙ at)

  forward-IsCounted :
      (r : Request) (text kind : Bytes) (w : World S) → IsAt w → IsCounted (forward h r text kind w)
  unfolding forward
  forward-IsCounted r text kind w at = recorded (codes "allowed") kind w.events at
