-- ===== src/Send/Response.antt =====
-- What `sendByApiContract` makes of the response of the client.
use Prim.Native.String
use shared_ts_libs.Base.{
  ℕ, Bool, not, ◌&&◌, ◌||◌, ltb, List, [], ◌∷◌, Option, none, some, String, Text, Dict, codes,
  lookup, insert, if◌then◌else◌,
}
use shared_ts_libs.Retry.Config.{Header, absent, single, several}
use shared_ts_libs.Retry.Loop.{Response}
use shared_ts_libs.Contract.{
  ResponsesByStatusCode, ResponseKind, no_content, blob, json, sse, resolve_response_entry,
}
use shared_ts_libs.Send.Request.{
  Method, unreadable_body, invalid_body, invalid_headers, Sent, resolves, rejects, and_then,
}

-- `value.join(', ')`
join_values : List String → String
join_values [] = ""
join_values (s ∷ []) = s
join_values (s ∷ t ∷ rest) = String.◌++◌ s (String.◌++◌ ", " (join_values (t ∷ rest)))

unfoldable pub normalize_response_headers : Dict Header → Dict String → Dict String
unfolding join_values
normalize_response_headers [] result = result
normalize_response_headers ((key, absent) ∷ raw) result = normalize_response_headers raw result
normalize_response_headers ((key, single value) ∷ raw) result =
    normalize_response_headers raw (insert key value result)
normalize_response_headers ((key, several values) ∷ raw) result =
    normalize_response_headers raw (insert key (join_values values) result)

abbrev pub content_type_of : Dict String → Option Text
content_type_of headers = elim (lookup "content-type" headers) [
  | none ↦ none
  | some t ↦ some (codes t)
]

-- Not `statusCode < 200 || statusCode > 299`.
abbrev pub is_success : ℕ → Bool
is_success status = not (ltb status 200 || ltb 299 status)

-- Values of the runtime, JSON.parse, and the schemas of the contract.
pub record Schemas : Type 1 where
  pub Json : Type 0
  pub Schema : Type 0
  pub of_text : String → Json
  pub parse_json : String → Option Json
  pub parse : Schema → Json → Option Json

module _ (lib : Schemas) where
  open lib use {Json, Schema, of_text, parse_json, parse}

  pub record ApiContract : Type 0 where
    pub method : Method
    pub responses : ResponsesByStatusCode Schema
    -- the schema of the response's headers, as the function that parses them
    pub header_schema : Option (Dict String → Option (Dict Json))
    pub summary : String

  -- A stream and a blob are read by the caller.
  pub data ParsedBody : Type 0 where
    null : ParsedBody
    parsed : Json → ParsedBody
    handle : ParsedBody
    events : Dict Schema → ParsedBody

  pub record ParsedResponse : Type 0 where
    pub status_code : ℕ
    pub headers : Dict Json
    pub body : ParsedBody

  pub record UnexpectedResponseError : Type 0 where
    pub status_code : ℕ
    pub headers : Dict String
    pub body : String
    pub summary : String

  pub data Either : Type 0 where
    unexpected : UnexpectedResponseError → Either
    error : ParsedResponse → Either
    result : ParsedResponse → Either

  parsed_by : Schema → Option Json → Sent ParsedBody
  parsed_by schema none = rejects invalid_body
  parsed_by schema (some j) = elim (parse schema j) [
    | none ↦ rejects invalid_body
    | some v ↦ resolves (parsed v)
  ]

  unfoldable pub parse_body : ResponseKind Schema → Option String → Sent ParsedBody
  unfolding parsed_by
  parse_body blob body = resolves handle
  parse_body (sse schemas) body = resolves (events schemas)
  parse_body no_content none = rejects unreadable_body
  parse_body no_content (some text) = resolves null
  parse_body (json schema) none = rejects unreadable_body
  parse_body (json schema) (some text) = parsed_by schema (parse_json text)

  as_json : Dict String → Dict Json
  as_json [] = []
  as_json ((key, value) ∷ h) = (key, of_text value) ∷ as_json h

  -- `{ ...headers, ...parsed }`
  spread : Dict Json → Dict Json → Dict Json
  spread headers [] = headers
  spread headers ((key, value) ∷ more) = spread (insert key value headers) more

  unfoldable pub parse_headers :
      Option (Dict String → Option (Dict Json)) → Dict String → Sent (Dict Json)
  unfolding as_json spread
  parse_headers none headers = resolves (as_json headers)
  parse_headers (some schema) headers = elim (schema headers) [
    | none ↦ rejects invalid_headers
    | some more ↦ resolves (spread (as_json headers) more)
  ]

  unfoldable pub unexpected_response : ApiContract → ℕ → Dict String → Option String → Sent Either
  unexpected_response contract status headers none = rejects unreadable_body
  unexpected_response contract status headers (some text) = resolves (
      unexpected (record {
        status_code = status;
        headers = headers;
        body = text;
        summary = contract.summary;
      }))

  unfoldable pub to_either : Bool → ParsedResponse → Either
  to_either capture response =
      if capture && not (is_success response.status_code) then error response else result response

  unfoldable pub expected_response :
      ApiContract → Bool → ℕ → Dict String → ResponseKind Schema → Option String → Sent Either
  unfolding parse_body parse_headers to_either
  expected_response contract capture status headers kind text =
      and_then (parse_body kind text) (λ body.
        and_then (parse_headers contract.header_schema headers) (λ h.
          resolves (to_either capture (record { status_code = status; headers = h; body = body }))))

  unfoldable pub read_response : ApiContract → Bool → Bool → Response → Sent Either
  unfolding normalize_response_headers unexpected_response expected_response
  read_response contract strict capture response =
      let headers = normalize_response_headers response.headers [] in
      elim (resolve_response_entry contract.responses response.status_code (content_type_of headers)
        strict) [
          | none ↦ unexpected_response contract response.status_code headers response.body
          | some kind ↦
              expected_response contract capture response.status_code headers kind response.body
        ]
