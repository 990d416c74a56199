-- ===== src/Send/Request.antt =====
-- The request of `sendByApiContract`: its headers, path and signal. The headers are those that the
-- `Headers` object holds, with names in lower case.
use shared_ts_libs.Base.{
  Bool, true, false, not, ◌&&◌, ◌==◌, List, [], ◌∷◌, ◌++◌, Option, none, some, String, Text, Dict,
  lookup, insert, str_eq, if◌then◌else◌,
}
use shared_ts_libs.Number.{Numbers}
use shared_ts_libs.Retry.Config.{RetryConfig}
use shared_ts_libs.Retry.Loop.{Thrown}

-- A function of headers comes to headers, or throws.
pub data HeadersParam : Type 0 where
  value : Dict String → HeadersParam
  throws : Thrown → HeadersParam

pub data SendError : Type 0 where
  threw : Thrown → SendError
  custom_accept : String → SendError
  unreadable_body : SendError
  invalid_body : SendError
  invalid_headers : SendError

pub data Sent (A : Type 0) : Type 0 where
  resolves : A → Sent A
  rejects : SendError → Sent A

abbrev pub and_then : {A B : Type 0} → Sent A → (A → Sent B) → Sent B
and_then (resolves a) f = f a
and_then (rejects e) f = rejects e

pub data Method : Type 0 where
  get delete post put patch : Method

-- `method.toUpperCase()`
abbrev pub method_text : Method → String
method_text get = "GET"
method_text delete = "DELETE"
method_text post = "POST"
method_text put = "PUT"
method_text patch = "PATCH"

-- `path` is what the contract's path resolver makes of the path parameters, `body` is the JSON text.
pub record Params (n : Numbers) : Type 0 where
  pub path : Text
  pub path_prefix : Option Text
  pub body : Option String
  pub query_params : Option (Dict String)
  pub headers : Option HeadersParam
  pub request_id : Option String
  pub streaming : Option Bool
  pub disable_keep_alive : Option Bool
  pub retry : Option (Option (RetryConfig n))
  pub timeout : Option n.Num
  pub has_signal : Bool
  pub strict_content_type : Option Bool
  pub capture_as_error : Option Bool

-- What aborts an attempt.
pub data SignalSource (n : Numbers) : Type 0 where
  caller : SignalSource n
  deadline : n.Num → SignalSource n

pub record Request (n : Numbers) : Type 0 where
  pub method : String
  pub path : Text
  pub body : Option String
  pub query : Option (Dict String)
  pub headers : Dict String
  pub reset : Bool
  pub signal : List (SignalSource n)

abbrev pub or_default : {A : Type 0} → Option A → A → A
or_default none d = d
or_default (some a) d = a

unfoldable pub resolve_request_headers : Option HeadersParam → Sent (Dict String)
resolve_request_headers none = resolves []
resolve_request_headers (some (value h)) = resolves h
resolve_request_headers (some (throws e)) = rejects (threw e)

-- No source is no signal.
unfoldable pub resolve_attempt_signal : {n : Numbers} → Bool → Option n.Num → List (SignalSource n)
resolve_attempt_signal true none = caller ∷ []
resolve_attempt_signal false none = []
resolve_attempt_signal true (some ms) = caller ∷ deadline ms ∷ []
resolve_attempt_signal false (some ms) = deadline ms ∷ []

-- `if (!headers.has(name)) headers.set(name, value)`
abbrev pub set_unless_there : String → String → Dict String → Dict String
set_unless_there name v h = elim (lookup name h) [ none ↦ insert name v h | some w ↦ h ]

unfoldable pub with_request_id : Option String → Dict String → Dict String
with_request_id none h = h
with_request_id (some id) h = set_unless_there "x-request-id" id h

unfoldable pub with_content_type : Option String → Dict String → Dict String
with_content_type none h = h
with_content_type (some body) h = set_unless_there "content-type" "application/json" h

unfoldable pub accepting : Option String → Dict String → Sent (Dict String)
accepting none h = resolves (insert "accept" "text/event-stream" h)
accepting (some existing) h =
    if not (str_eq existing "") && not (str_eq existing "text/event-stream")
    then rejects (custom_accept existing)
    else resolves (insert "accept" "text/event-stream" h)

unfoldable pub with_accept : Bool → Dict String → Sent (Dict String)
unfolding accepting
with_accept false h = resolves h
with_accept true h = accepting (lookup "accept" h) h

unfoldable pub request_headers :
    Bool → Option String → Option String → Dict String → Sent (Dict String)
unfolding with_request_id with_content_type with_accept
request_headers use_streaming request_id body user =
    with_accept use_streaming (with_content_type body (with_request_id request_id user))

-- 47 is the slash.
abbrev pub starts_with_slash : Text → Bool
starts_with_slash [] = false
starts_with_slash (c ∷ t) = c == 47

abbrev pub ends_with_slash : Text → Bool
ends_with_slash [] = false
ends_with_slash (c ∷ []) = c == 47
ends_with_slash (c ∷ d ∷ t) = ends_with_slash (d ∷ t)

-- `slice(0, -1)` and `slice(1)`
abbrev pub without_last : Text → Text
without_last [] = []
without_last (c ∷ []) = []
without_last (c ∷ d ∷ t) = c ∷ without_last (d ∷ t)

abbrev pub without_first : Text → Text
without_first [] = []
without_first (c ∷ t) = t

unfoldable pub ensure_starts_with_slash : Text → Text
ensure_starts_with_slash t = if starts_with_slash t then t else 47 ∷ t

unfoldable pub build_request_path : Text → Option Text → Text
unfolding ensure_starts_with_slash
build_request_path path none = ensure_starts_with_slash path
build_request_path path (some []) = ensure_starts_with_slash path
build_request_path path (some (c ∷ p)) =
    let prefix = c ∷ p in
    ensure_starts_with_slash (
      (if ends_with_slash prefix then without_last prefix else prefix)
      ++ 47 ∷ (if starts_with_slash path then without_first path else path))

module _ {n : Numbers} where
  unfoldable pub base_request : Method → Params n → Dict String → Request n
  unfolding resolve_attempt_signal build_request_path
  base_request method params headers = record {
    method = method_text method;
    path = build_request_path params.path params.path_prefix;
    body = params.body;
    query = params.query_params;
    headers = headers;
    reset = or_default params.disable_keep_alive false;
    signal = resolve_attempt_signal params.has_signal params.timeout;
  }

  -- The request, or what is thrown before any call.
  unfoldable pub build_request : Method → Bool → Params n → Sent (Request n)
  unfolding resolve_request_headers request_headers base_request
  build_request method use_streaming params =
      and_then (resolve_request_headers params.headers) (λ user.
        and_then (request_headers use_streaming params.request_id params.body user)
          (λ h. resolves (base_request method params h)))
