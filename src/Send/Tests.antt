-- ===== src/Send/Tests.antt =====
-- A client that answers busy once, then with a body.
use shared_ts_libs.Base.{
  ℕ, zero, suc, true, false, ◌==◌, ◌≡◌, refl, List, [], ◌∷◌, none, some, String, codes, map, str_eq,
  if◌then◌else◌,
}
use shared_ts_libs.Number.Small.{finite, nan, small}
use shared_ts_libs.Retry.Config.{
  Clock, single, several, resolve_retry_config, compute_retry_delay, parse_retry_after_header,
  apply_jitter_and_cap,
}
use shared_ts_libs.Retry.Loop.{
  Outcome, responds, Environment, called, dumped, waits, with_retry, round_of,
}
use shared_ts_libs.Contract.{
  typed, ResponsesByStatusCode, code_key, range_key, default_key, resolve_response_entry,
  has_any_success_sse_response, declared_for, get_range_key, normalize_media_type,
}
use shared_ts_libs.Send.Request.{
  Params, Request, get, resolves, value, build_request, request_headers, build_request_path,
}
use shared_ts_libs.Send.Response.{
  Schemas, ApiContract, parsed, result, normalize_response_headers, unexpected_response,
  expected_response, parse_body, parse_headers, to_either, read_response,
}
use shared_ts_libs.Send.Client.{
  SendRun, perform, performed, finish, use_streaming, send_by_api_contract,
}
use shared_ts_libs.Send.Outcomes.{IsSent, send_by_api_contract-IsSent}
use shared_ts_libs.Send.Headers.{AreHeaders, request_headers-AreHeaders}
use shared_ts_libs.Send.Paths.{joined, build_request_path-joined}
use shared_ts_libs.Send.Blob.{text, cancel, reads, already_consumed, accesses, accesses-once}
use shared_ts_libs.Routing.Config.{is_inherited}
use shared_ts_libs.Send.Events.{
  without_schema, ServerEvent, schema_not_found, parse_sse_stream, StreamOf,
  parse_sse_stream-StreamOf,
}

-- JSON values are texts, the text "{" is no JSON, and the one schema accepts all but "null".
abbrev lib : Schemas
lib = record {
  Json = String;
  Schema = ℕ;
  of_text = λ s. s;
  parse_json = λ s. if str_eq s "{" then none else some s;
  parse = λ schema j. if str_eq j "null" then none else some j;
}

abbrev responses : ResponsesByStatusCode ℕ
responses (code_key n) = if n == 200 then some (typed 1) else none
responses (range_key r) = none
responses default_key = none

abbrev contract : ApiContract lib
contract = record {
  method = get;
  responses = responses;
  header_schema = none;
  summary = "Reads an item";
}

abbrev params : Params small
params = record {
  path = codes "/items/1";
  path_prefix = some (codes "v1/");
  body = none;
  query_params = none;
  headers = some (value (("x-team", "core") ∷ []));
  request_id = some "r-1";
  streaming = none;
  disable_keep_alive = none;
  retry = some none;
  timeout = some (finite 500);
  has_signal = true;
  strict_content_type = none;
  capture_as_error = none;
}

abbrev clock : Clock small
clock = record { number_of = λ s. nan; time_of = λ s. nan; now = finite 0 }

abbrev answers : ℕ → Outcome
answers zero = responds (record { status_code = 503; headers = []; body = some "" })
answers (suc k) = responds (record {
  status_code = 200;
  headers =
      ("content-type", single "application/json; charset=utf-8")
      ∷ ("vary", several ("a" ∷ "b" ∷ []))
      ∷ [];
  body = some "item";
})

abbrev client : Request small → Environment small
client request = record {
  call = answers;
  aborted = λ k. false;
  random = λ k. finite 0;
  clock = λ k. clock;
  wait_rejects = λ k. none;
  dump_rejects = λ k. none;
  dump_first = λ k. false;
}

send : Unit {0}
unfolding send_by_api_contract performed perform finish read_response expected_response
    unexpected_response parse_body parse_headers to_either normalize_response_headers build_request
    resolve_response_entry declared_for get_range_key normalize_media_type
    has_any_success_sse_response with_retry round_of resolve_retry_config compute_retry_delay
    apply_jitter_and_cap parse_retry_after_header
send = tt

send_tests :
    send_by_api_contract lib contract params client
    ≡ some (record {
      settled = resolves (
          result (record {
            status_code = 200;
            headers = ("content-type", "application/json; charset=utf-8") ∷ ("vary", "a, b") ∷ [];
            body = parsed "item";
          }));
      events = called 0 ∷ dumped 0 ∷ waits 0 (finite 100) ∷ called 1 ∷ [];
    })
unfolding send
send_tests = refl

send_by_api_contract-IsSent_example :
    (run : SendRun lib small) × (send_by_api_contract lib contract params client ≡ some run)
    × IsSent lib contract params client
        (build_request contract.method (use_streaming lib contract params) params)
        run
send_by_api_contract-IsSent_example = send_by_api_contract-IsSent lib contract params client

request_headers-AreHeaders_example :
    AreHeaders true
      (some "r-1")
      (some "{}")
      (("accept", "text/html") ∷ [])
      (request_headers true (some "r-1") (some "{}") (("accept", "text/html") ∷ []))
request_headers-AreHeaders_example =
    request_headers-AreHeaders (some "r-1") (some "{}") (("accept", "text/html") ∷ []) true

accesses-once_example :
    accesses false (text ∷ cancel ∷ []) ≡ reads text ∷ map (λ _. already_consumed) (cancel ∷ [])
accesses-once_example = accesses-once text (cancel ∷ [])

abbrev ticks : List ServerEvent
ticks =
    record { type = "tick"; content = "1"; last_event_id = ""; retry = none }
    ∷ record { type = "tock"; content = "2"; last_event_id = ""; retry = none }
    ∷ []

stream_tests : (parse_sse_stream lib (("tick", 1) ∷ []) ticks).ends ≡ schema_not_found "tock"
unfolding parse_sse_stream without_schema is_inherited
stream_tests = refl

parse_sse_stream-StreamOf_example :
    StreamOf lib
      (("tick", 1) ∷ [])
      ticks
      (parse_sse_stream lib (("tick", 1) ∷ []) ticks).yielded
      (parse_sse_stream lib (("tick", 1) ∷ []) ticks).ends
parse_sse_stream-StreamOf_example = parse_sse_stream-StreamOf lib (("tick", 1) ∷ []) ticks

build_request_path-joined_example :
    (build_request_path (codes "items") (some (codes "v1")) ≡ joined (codes "v1") (codes "items"))
    × (build_request_path (codes "/items") (some (codes "v1"))
        ≡ joined (codes "v1") (codes "items"))
    × (build_request_path (codes "items") (some (codes "v1/"))
        ≡ joined (codes "v1") (codes "items"))
    × (build_request_path (codes "/items") (some (codes "v1/"))
        ≡ joined (codes "v1") (codes "items"))
    × (build_request_path (codes "items") none ≡ codes "/items")
    × (build_request_path (codes "/items") none ≡ codes "/items")
    × (build_request_path (codes "items") (some []) ≡ codes "/items")
    × (build_request_path (codes "/items") (some []) ≡ codes "/items")
build_request_path-joined_example =
    build_request_path-joined b'v' (codes "1") (codes "items") refl refl
