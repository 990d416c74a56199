-- ===== src/Send/Outcomes.antt =====
-- What `sendByApiContract` comes to, over all of its calls.
use shared_ts_libs.Base.{ℕ, ◌+◌, ◌-◌, ◌≤◌, true, ◌≡◌, refl, arith, [], ◌∷◌, Option, none, some}
use shared_ts_libs.Number.{Numbers}
use shared_ts_libs.Retry.Config.{RetryConfig, resolve_retry_config}
use shared_ts_libs.Retry.Loop.{
  Outcome, responds, throws, Settled, returned, thrown, Environment, called, Run,
}
use shared_ts_libs.Retry.Loop.Bounds.{count_calls, SettledBy, with_retry-settles}
use shared_ts_libs.Send.Request.{
  threw, Sent, resolves, rejects, Params, Request, or_default, build_request,
}
use shared_ts_libs.Send.Response.{Schemas, ApiContract, Either}
use shared_ts_libs.Send.Client.{
  SendRun, once_settled, perform, performed, finish, use_streaming, send_by_api_contract,
}
use shared_ts_libs.Send.Answers.{IsAnswer, read_response-IsAnswer}

-- What call `k`, the last one, has done.
abbrev pub IsLastCall :
    {n : Numbers} → Option (Option (RetryConfig n)) → Environment n → ℕ → Settled → Type 0
IsLastCall none env k (returned r) = (k ≡ 0) × (env.call 0 ≡ responds r)
IsLastCall none env k (thrown e) = (k ≡ 0) × (env.call 0 ≡ throws e)
IsLastCall {n} (some config) env k s =
    (k ≤ (resolve_retry_config n config).max_retries)
    × SettledBy (resolve_retry_config n config) env k s

once-IsLastCall :
    {n : Numbers} (env : Environment n) (o : Outcome)
    → env.call 0 ≡ o
    → IsLastCall none env 0 (once_settled o)
unfolding once_settled
once-IsLastCall env (responds r) e = (refl, e)
once-IsLastCall env (throws x) e = (refl, e)

perform-IsLastCall :
    {n : Numbers} (retry : Option (Option (RetryConfig n))) (env : Environment n)
    → (run : Run n) × (perform retry env ≡ some run)
      × (k : ℕ) × (count_calls run.events ≡ k + 1)
      × IsLastCall retry env k run.settled
unfolding perform
perform-IsLastCall none env = (
  record { settled = once_settled (env.call 0); events = called 0 ∷ [] },
  refl,
  0,
  omega arith,
  once-IsLastCall env (env.call 0) refl,
)
perform-IsLastCall {n} (some config) env =
    let (run, found, some_calls, few, by) =
      with_retry-settles (resolve_retry_config n config) env in
    (run, found, count_calls run.events - 1, omega arith, (omega arith, by))

module _ (lib : Schemas) {n : Numbers} (contract : ApiContract lib) (params : Params n) where
  abbrev pub AnswersTo : Settled → Sent (Either lib) → Type 0
  AnswersTo (thrown e) answer = answer ≡ rejects (threw e)
  AnswersTo (returned r) answer =
      IsAnswer lib contract (or_default params.strict_content_type true)
        (or_default params.capture_as_error true) r answer

  finish-AnswersTo : (s : Settled) → AnswersTo s (finish lib contract params s)
  unfolding finish
  finish-AnswersTo (thrown e) = refl
  finish-AnswersTo (returned r) = read_response-IsAnswer lib contract _ _ r

  -- What happens to a request that is built, or is not.
  abbrev pub IsSent : (Request n → Environment n) → Sent (Request n) → SendRun lib n → Type 0
  IsSent client (rejects e) run = (run.settled ≡ rejects e) × (run.events ≡ [])
  IsSent client (resolves request) run =
      (k : ℕ) × (s : Settled) × (count_calls run.events ≡ k + 1)
      × IsLastCall params.retry (client request) k s
      × AnswersTo s run.settled

  sent-IsSent :
      (client : Request n → Environment n) (built : Sent (Request n))
      → build_request contract.method (use_streaming lib contract params) params ≡ built
      → (run : SendRun lib n) × (send_by_api_contract lib contract params client ≡ some run)
        × IsSent client built run
  unfolding send_by_api_contract
  sent-IsSent client (rejects e) b =
      (record { settled = rejects e; events = [] }, rw (b, send_by_api_contract) refl, (refl, refl))
  sent-IsSent client (resolves request) b =
      let (run, found, k, calls, last) = perform-IsLastCall params.retry (client request) in
      (
        record { settled = finish lib contract params run.settled; events = run.events },
        rw (b, send_by_api_contract) (rw (found, performed) refl),
        (k, run.settled, calls, last, finish-AnswersTo run.settled),
      )

  -- Sending always comes to an end. A request that cannot be built is refused before any call.
  -- Otherwise the caller is answered for the last call: for the only one, or, with retries, for one
  -- within the retries with which `withRetry` settles. What was thrown then, is thrown; a response is an
  -- unexpected one only if the contract resolves no body for it. The body of any other response is read
  -- as the most specific entry of its status declares, and the response is an error only if errors
  -- are captured and its status is no success, a result only if this is not so.
  pub send_by_api_contract-IsSent :
      (client : Request n → Environment n)
      → (run : SendRun lib n) × (send_by_api_contract lib contract params client ≡ some run)
        × IsSent client
            (build_request contract.method (use_streaming lib contract params) params)
            run
  send_by_api_contract-IsSent client = sent-IsSent client _ refl
