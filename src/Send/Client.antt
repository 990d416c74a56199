-- ===== src/Send/Client.antt =====
-- `sendByApiContract`: the request is built, sent with or without retries, and its response is read.
use shared_ts_libs.Base.{Bool, true, List, [], ◌∷◌, Option, none, some}
use shared_ts_libs.Number.{Numbers}
use shared_ts_libs.Retry.Config.{RetryConfig, resolve_retry_config}
use shared_ts_libs.Retry.Loop.{
  Outcome, responds, throws, Settled, returned, thrown, Environment, Event, called, Run, with_retry,
}
use shared_ts_libs.Contract.{has_any_success_sse_response}
use shared_ts_libs.Send.Request.{
  threw, Sent, resolves, rejects, Params, Request, or_default, build_request,
}
use shared_ts_libs.Send.Response.{Schemas, ApiContract, Either, read_response}

pub record SendRun (lib : Schemas) (n : Numbers) : Type 0 where
  pub settled : Sent (Either lib)
  pub events : List (Event n)

unfoldable pub once_settled : Outcome → Settled
once_settled (responds r) = returned r
once_settled (throws e) = thrown e

module _ {n : Numbers} where
  -- The call of the client, or the loop of calls.
  unfoldable pub perform : Option (Option (RetryConfig n)) → Environment n → Option (Run n)
  unfolding once_settled
  perform none env = some (record { settled = once_settled (env.call 0); events = called 0 ∷ [] })
  perform (some config) env = with_retry (resolve_retry_config n config) env

module _ (lib : Schemas) {n : Numbers} (contract : ApiContract lib) (params : Params n) where
  unfoldable pub finish : Settled → Sent (Either lib)
  finish (thrown e) = rejects (threw e)
  finish (returned response) =
      read_response lib contract (or_default params.strict_content_type true)
        (or_default params.capture_as_error true) response

  abbrev pub use_streaming : Bool
  use_streaming = or_default params.streaming (has_any_success_sse_response contract.responses)

  unfoldable pub performed : Option (Run n) → Option (SendRun lib n)
  unfolding finish
  performed none = none
  performed (some run) = some (record { settled = finish run.settled; events = run.events })

  -- What the client does with the request in each attempt is its environment.
  unfoldable pub send_by_api_contract : (Request n → Environment n) → Option (SendRun lib n)
  unfolding performed perform
  send_by_api_contract client = elim (build_request contract.method use_streaming params) [
    | rejects e ↦ some (record { settled = rejects e; events = [] })
    | resolves request ↦ performed (perform params.retry (client request))
  ]
