-- ===== src/Proxy/Accounting/Flow.antt =====
-- The handlers of proxy.go, and what each counts of its request.
use gql_firewall.Base.{
  Bytes, true, false, List, ◌++◌, append-nil, append_assoc, arith, codes, ◌≡◌, ◌∙◌, ◌⊎◌, inl, inr,
  refl, Bool-cases, ◌∷◌, [], if◌then◌else◌, sym, subst,
}
use gql_firewall.Metrics.{rule_evaluations, Events, record_request}
use gql_firewall.Proxy.Accounting.{
  outcomes, outcomes-quiet, labels, IsQuiet, IsCounted, IsAt, recorded, fail_with-IsCounted,
  fail_text-IsCounted, block-IsCounted, forward-IsCounted,
}
use gql_firewall.Proxy.Batch.{}
use gql_firewall.Proxy.Handler.{World, Handler, Run, read_body}
use gql_firewall.Proxy.Http.{
  get, post, Request, Outcome, get_value, replied, forwarded, panicked, http_error,
}
use gql_firewall.Proxy.Serve.{handle_graphql, dispatch, recover_panic, serve_http}
use gql_firewall.Proxy.Text.{is_graphql_path, has_json_content_type}
use gql_firewall.Proxy.Rule.{IsKept, handle_text-Post, handle_graphql_get-Post}

-- A request that the handlers of queries take: GET, or POST with a JSON content type.
unfoldable pub IsQueryRequest : Request → Type 0
IsQueryRequest r =
    (r.method ≡ get)
    ⊎ ((r.method ≡ post)
        × (has_json_content_type (get_value (codes "Content-Type") r.headers) ≡ true))

-- How a request is counted that ends so, with the panic of the upstream that is recovered.
abbrev pub ends : {S : Type 0} → Handler S → Outcome → List Bytes
ends h (forwarded headers r) =
    codes "allowed" ∷ (if h.upstream_panics r then codes "error" ∷ [] else [])
ends h outcome = labels outcome

module _ {S : Type 0} (h : Handler S) (quiet : IsQuiet h) (past : List Bytes) where
  IsCounted-IsKept : (r : Request) → IsKept h r (IsAt h quiet past) (IsCounted h quiet past)
  unfolding outcomes
  IsCounted-IsKept r = record {
    fails =
        λ context status kind w other at. fail_with-IsCounted h quiet past _ status kind w other at;
    empties = λ n w at. fail_text-IsCounted h quiet past _ w at;
    spoils = λ n w at. fail_text-IsCounted h quiet past _ w at;
    blocks = block-IsCounted h quiet past;
    forwards = forward-IsCounted h quiet past r;
    panics = λ w at. at ∙ sym (append-nil past);
    enters = λ rule w at. outcomes-quiet (rule_evaluations rule) w.events refl ∙ at;
    asks = λ info w carried at. quiet info w ∙ at;
  }

  dispatch-IsCounted :
      (r : Request) (w : World S)
      → IsQueryRequest r
      → IsAt h quiet past w
      → IsCounted h quiet past (dispatch h r.method r w)
  unfolding dispatch handle_graphql IsQueryRequest
  dispatch-IsCounted r w (inl by_get) at =
      subst (λ m. IsCounted h quiet past (dispatch h m r w)) (sym by_get)
        (handle_graphql_get-Post h r _ _ (IsCounted-IsKept r) w at)
  dispatch-IsCounted r w (inr (by_post, json)) at =
      subst (λ m. IsCounted h quiet past (dispatch h m r w)) (sym by_post)
        (rw json (
          handle_text-Post h r _ _ (IsCounted-IsKept r) (read_body h.max_body_bytes r.body) w refl
            at))

  aborted :
      (log : Events)
      → outcomes log ≡ past ++ codes "allowed" ∷ []
      → outcomes (record_request (codes "error") (codes "unknown") log)
        ≡ past ++ codes "allowed" ∷ codes "error" ∷ []
  aborted log at =
      recorded h quiet (past ++ codes "allowed" ∷ []) (codes "error") (codes "unknown") log at
      ∙ append_assoc past (codes "allowed" ∷ []) (codes "error" ∷ [])

  recover_panic-IsCounted :
      (run : Run S)
      → h.disable_panic_recovery ≡ false
      → IsCounted h quiet past run
      → outcomes (recover_panic h run).1.events ≡ past ++ ends h (recover_panic h run).0
  unfolding recover_panic http_error
  recover_panic-IsCounted (panicked, w) on at =
      rw on
        (recorded h quiet past (codes "error") (codes "unknown") w.events (at ∙ append-nil past))
  recover_panic-IsCounted (replied response, w) on at = at
  recover_panic-IsCounted (forwarded headers r, w) on at = elim (Bool-cases (h.upstream_panics r)) [
    | inr quiet_upstream ↦ ground (arith, at)
    | inl aborts ↦ ground (arith, aborted w.events at)
  ]

-- A request on a GraphQL path that is a GET, or a POST with a JSON content type, is counted once in
-- gql_firewall_requests_total, however it ends, a recovered panic included: as "allowed" exactly if it
-- is forwarded, and then once more as "error" if the upstream panics, as "blocked" if it is answered 403,
-- and as "error" with any other answer. It is assumed
-- that the evaluator counts no request and that panics are recovered.
pub serve_http-outcomes :
    {S : Type 0} (h : Handler S) (r : Request) (w : World S)
    → IsQuiet h
    → h.disable_panic_recovery ≡ false
    → is_graphql_path r.path ≡ true
    → IsQueryRequest r
    → outcomes (serve_http h r w).1.events ≡ outcomes w.events ++ ends h (serve_http h r w).0
unfolding serve_http
serve_http-outcomes h r w quiet on path query =
    rw (path, serve_http)
      (recover_panic-IsCounted h quiet (outcomes w.events) (dispatch h r.method r w) on
        (dispatch-IsCounted h quiet (outcomes w.events) r w query refl))
