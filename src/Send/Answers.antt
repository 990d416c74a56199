-- ===== src/Send/Answers.antt =====
-- What the reading of a response comes to.
use shared_ts_libs.Base.{
  Text, ℕ, ◌≤◌, Bool, true, false, not, ◌≡◌, refl, arith, [], Option, none, some, Dict,
  Option-cases, Bool-cases, inl, inr, ◌⊎◌, String, ◌&&◌,
}
use shared_ts_libs.Retry.Loop.{Response}
use shared_ts_libs.Contract.{
  ApiContractResponse, ResponseKind, no_content, blob, json, sse, resolve_response_entry,
}
use shared_ts_libs.Contract.Specific.{IsMostSpecific}
use shared_ts_libs.Contract.Kinds.{IsResolution, resolve_response_entry-IsResolution}
use shared_ts_libs.Send.Request.{
  SendError, and_then, unreadable_body, invalid_body, invalid_headers, Sent, resolves, rejects,
}
use shared_ts_libs.Send.Response.{
  Schemas, ApiContract, ParsedBody, null, parsed, handle, events, ParsedResponse, Either,
  unexpected, error, result, content_type_of, normalize_response_headers, is_success, parse_body,
  parse_headers, expected_response, unexpected_response, to_either, read_response,
}

module _ (lib : Schemas) where
  open lib use {Json, Schema, parse_json, parse}

  -- What the caller is given of a body of the kind. A blob and a stream are not read yet.
  abbrev pub IsBodyOf : ResponseKind Schema → Option String → ParsedBody lib → Type 0
  IsBodyOf no_content body b = b ≡ null
  IsBodyOf blob body b = b ≡ handle
  IsBodyOf (sse schemas) body b = b ≡ events schemas
  IsBodyOf (json schema) body b =
      (text : String) × (j : Json) × (v : Json) × (body ≡ some text)
      × (parse_json text ≡ some j)
      × (parse schema j ≡ some v)
      × (b ≡ parsed v)

  parse_body-IsBodyOf :
      (kind : ResponseKind Schema) (body : Option String) {b : ParsedBody lib}
      → parse_body lib kind body ≡ resolves b
      → IsBodyOf kind body b
  unfolding parse_body
  parse_body-IsBodyOf blob body h = cc
  parse_body-IsBodyOf (sse schemas) body h = cc
  parse_body-IsBodyOf no_content none h = absurd (ground arith)
  parse_body-IsBodyOf no_content (some text) h = cc
  parse_body-IsBodyOf (json schema) none h = absurd (ground arith)
  parse_body-IsBodyOf (json schema) (some text) h = elim (Option-cases (parse_json text)) [
    | inl wrong ↦ absurd (ground (arith, wrong))
    | inr (j, read) ↦ elim (Option-cases (parse schema j)) [
      | inl wrong ↦ absurd (ground (arith, read, wrong))
      | inr (v, accepted) ↦ (text, j, v, refl, read, accepted, ground (arith, read, accepted))
    ]
  ]

  rejected-body :
      (kind : ResponseKind Schema) (body : Option String) {e : SendError}
      → parse_body lib kind body ≡ rejects e
      → ((e ≡ unreadable_body) × (body ≡ none)) ⊎ (e ≡ invalid_body) ⊎ (e ≡ invalid_headers)
  unfolding parse_body
  rejected-body blob body h = absurd (ground arith)
  rejected-body (sse schemas) body h = absurd (ground arith)
  rejected-body no_content none h = inl (cc, refl)
  rejected-body no_content (some text) h = absurd (ground arith)
  rejected-body (json schema) none h = inl (cc, refl)
  rejected-body (json schema) (some text) h = inr (inl (ground arith))

  rejected-headers :
      (schema : Option (Dict String → Option (Dict Json))) (h : Dict String) {e : SendError}
      → parse_headers lib schema h ≡ rejects e
      → e ≡ invalid_headers
  unfolding parse_headers
  rejected-headers none h r = absurd (ground arith)
  rejected-headers (some schema) h r = ground arith

failure-IsFailure :
    (capture : Bool) (s t : ℕ)
    → s ≡ t
    → (capture && not (is_success s)) ≡ true
    → ¬ ((200 ≤ t) × (t ≤ 299))
failure-IsFailure capture s t e h both = ground arith

success-IsSuccess :
    (capture : Bool) (s t : ℕ)
    → s ≡ t
    → capture ≡ true
    → (capture && not (is_success s)) ≡ false
    → (200 ≤ t) × (t ≤ 299)
success-IsSuccess capture s t e c h = ground arith

module _ (lib : Schemas) (contract : ApiContract lib) (strict capture : Bool) (r : Response) where
  open lib use {Schema}

  abbrev pub type_of_response : Option Text
  type_of_response = content_type_of (normalize_response_headers r.headers [])

  -- The response with its body, read as the most specific entry of its status declares.
  abbrev pub IsExpected : ParsedResponse lib → Type 0
  IsExpected p =
      (p.status_code ≡ r.status_code)
      × (kind : ResponseKind Schema) × (d : ApiContractResponse Schema) × IsMostSpecific
          contract.responses r.status_code d
      × IsResolution strict type_of_response d kind
      × IsBodyOf lib kind r.body p.body

  abbrev pub IsSuccess : Type 0
  IsSuccess = (200 ≤ r.status_code) × (r.status_code ≤ 299)

  -- What the caller is given for the response.
  abbrev pub IsAnswer : Sent (Either lib) → Type 0
  IsAnswer (resolves (unexpected u)) =
      (resolve_response_entry contract.responses r.status_code type_of_response strict ≡ none)
      × (u.status_code ≡ r.status_code)
      × (r.body ≡ some u.body)
  IsAnswer (resolves (error p)) = (capture ≡ true) × ¬ IsSuccess × IsExpected p
  IsAnswer (resolves (result p)) = (capture ≡ true → IsSuccess) × IsExpected p
  IsAnswer (rejects e) =
      ((e ≡ unreadable_body) × (r.body ≡ none)) ⊎ (e ≡ invalid_body) ⊎ (e ≡ invalid_headers)

  to_either-IsAnswer :
      (p : ParsedResponse lib) → IsExpected p → IsAnswer (resolves (to_either lib capture p))
  unfolding to_either
  to_either-IsAnswer p x = elim (Bool-cases (capture && not (is_success p.status_code))) [
    | inl failed ↦ rw failed (
      ground (arith, failed),
      failure-IsFailure capture p.status_code r.status_code x.0 failed,
      x,
    )
    | inr fine ↦
        rw fine ((λ c. success-IsSuccess capture p.status_code r.status_code x.0 c fine), x)
  ]

  unexpected-IsAnswer :
      (body : Option String)
      → r.body ≡ body
      → resolve_response_entry contract.responses r.status_code type_of_response strict ≡ none
      → IsAnswer (
          unexpected_response lib contract r.status_code
            (normalize_response_headers r.headers [])
            body)
  unfolding unexpected_response
  unexpected-IsAnswer none e h = inl (refl, e)
  unexpected-IsAnswer (some text) e h = (h, refl, e)

  -- The answer for a body that is parsed so, with headers that are parsed so.
  parsed-IsAnswer :
      (kind : ResponseKind Schema) (body : Sent (ParsedBody lib)) (headers : Sent (Dict lib.Json))
      → resolve_response_entry contract.responses r.status_code type_of_response strict ≡ some kind
      → parse_body lib kind r.body ≡ body
      → parse_headers lib contract.header_schema (normalize_response_headers r.headers []) ≡ headers
      → IsAnswer (
          and_then body (λ b. and_then headers (λ h. resolves (
            to_either lib capture
              (record { status_code = r.status_code; headers = h; body = b })))))
  parsed-IsAnswer kind (rejects e) headers found b h = rejected-body lib kind r.body b
  parsed-IsAnswer kind (resolves x) (rejects e) found b h =
      inr (inr (rejected-headers lib contract.header_schema _ h))
  parsed-IsAnswer kind (resolves x) (resolves y) found b h =
      let (d, specific, resolution) =
        resolve_response_entry-IsResolution contract.responses r.status_code type_of_response strict
          found in
      to_either-IsAnswer _
        (refl, kind, d, specific, resolution, parse_body-IsBodyOf lib kind r.body b)

  pub read_response-IsAnswer : IsAnswer (read_response lib contract strict capture r)
  unfolding read_response expected_response
  read_response-IsAnswer =
      elim (Option-cases
        (resolve_response_entry contract.responses r.status_code type_of_response strict)) [
          | inl missing ↦ rw (missing, read_response) (unexpected-IsAnswer r.body refl missing)
          | inr (kind, found) ↦ rw (found, read_response) (parsed-IsAnswer kind _ _ found refl refl)
        ]
