-- ===== src/Proxy/Invariant.antt =====
-- What the evaluator keeps true of its state, ServeHTTP (proxy.go) keeps: no handler touches that state
-- but by asking the evaluator.
use gql_firewall.Base.{◌&&◌, not, on_branch, codes, refl}
use gql_firewall.Parser.Info.{QueryInfo}
use gql_firewall.Proxy.Text.{is_graphql_path, has_json_content_type}
use gql_firewall.Proxy.Carried.{Carried}
use gql_firewall.Proxy.Http.{Method, get, post, Request, get_value, replied, forwarded, panicked}
use gql_firewall.Proxy.Handler.{World, Handler, Run, fail_with, fail_text, block, forward}
use gql_firewall.Proxy.Batch.{}
use gql_firewall.Proxy.Serve.{handle_graphql, dispatch, recover_panic, serve_http}
use gql_firewall.Proxy.Rule.{IsKept, handle_text-Post, handle_graphql_get-Post}

module _ {S : Type 0} (h : Handler S) (I : S → Type 0) (r : Request)
    (keeps : (info : QueryInfo) (w : World S)
      → Carried h r info
      → I w.state
      → I (h.evaluate info w).1.state) where
  abbrev Holds : Run S → Type 0
  Holds run = I run.1.state

  keeps-IsKept : IsKept h r (λ w. I w.state) Holds
  unfolding fail_with fail_text block forward
  keeps-IsKept = record {
    fails = λ context status kind w other i. i;
    empties = λ n w i. i;
    spoils = λ n w i. i;
    blocks = λ result kind w i. i;
    forwards = λ text kind w i. i;
    panics = λ w i. i;
    enters = λ rule w i. i;
    asks = keeps;
  }

  dispatch-Holds : (m : Method) (w : World S) → I w.state → Holds (dispatch h m r w)
  unfolding dispatch handle_graphql
  dispatch-Holds post w i =
      on_branch Holds (has_json_content_type (get_value (codes "Content-Type") r.headers)) _ _
        (handle_text-Post h r (λ w. I w.state) Holds keeps-IsKept _ w refl i) i
  dispatch-Holds get w i = handle_graphql_get-Post h r (λ w. I w.state) Holds keeps-IsKept w i
  dispatch-Holds _ w i = i

  recover_panic-Holds : (run : Run S) → Holds run → Holds (recover_panic h run)
  unfolding recover_panic
  recover_panic-Holds (panicked, w) i = on_branch Holds h.disable_panic_recovery _ _ i i
  recover_panic-Holds (replied response, w) i = i
  recover_panic-Holds (forwarded headers r', w) i =
      on_branch Holds (h.upstream_panics r' && not h.disable_panic_recovery) _ _ i i

  -- Whatever the evaluator keeps true of its state when it is asked about a query that the request carries,
  -- every request keeps, however it ends.
  pub serve_http-Holds : (w : World S) → I w.state → I (serve_http h r w).1.state
  unfolding serve_http
  serve_http-Holds w i =
      recover_panic-Holds _
        (on_branch Holds (is_graphql_path r.path) _ _ (dispatch-Holds r.method w i) i)
