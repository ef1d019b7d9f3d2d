-- ===== src/Opa/Evaluators.antt =====
-- The Evaluator interface (result.go) and SidecarClient (sidecar.go). An error is `none`.
use gql_firewall.Base.{
  ℕ, Bytes, Bool, true, [], Option, none, some, is_empty, not, if◌then◌else◌, ◌==◌, ◌>>=◌,
}
use gql_firewall.Opa.Json.{Result}
use gql_firewall.Opa.Input.{Input}

pub record Evaluator : Type 0 where
  pub evaluate : Input → Option Result
  pub configured : Bool

pub record HttpResponse : Type 0 where
  pub status_code : ℕ
  pub body : Bytes

-- What the client calls: json.Marshal of the request, http.Client.Post (a nil response is
-- `some none`), and json.Decoder.Decode of the answer.
pub record Http : Type 0 where
  pub marshal_input : Input → Option Bytes
  pub post : Bytes → Bytes → Option (Option HttpResponse)
  pub decode_result : Bytes → Option Result

unfoldable pub sidecar_configured : Bytes → Bool
sidecar_configured endpoint = not (is_empty endpoint)

-- The checks of the response.
unfoldable pub read_response : Http → Option HttpResponse → Option Result
read_response http none = none
read_response http (some resp) =
    if resp.status_code == 200 then http.decode_result resp.body else none

-- `SidecarClient.Evaluate`
unfoldable pub sidecar_evaluate : Http → Bytes → Input → Option Result
unfolding read_response
sidecar_evaluate http endpoint input =
    if is_empty endpoint
    then some (record { allowed = true; reason = [] })
    else http.marshal_input input >>= λ body.
        http.post endpoint body >>= λ resp. read_response http resp
