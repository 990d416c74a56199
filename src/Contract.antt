-- ===== src/Contract.antt =====
-- api-contracts/src/new/contractResponse.ts: what a contract declares for a status, and how the
-- content type of a response selects a body. Content types are lists of code units.
pub mod Kinds
pub mod Specific
pub mod Media
pub mod Tests
use shared_ts_libs.Base.{
  ℕ, Bool, true, false, ◌&&◌, ◌||◌, ◌==◌, leb, ltb, List, [], ◌∷◌, ◌++◌, Option, none, some, Dict,
  Text, codes, text_eq, ascii_lower, if◌then◌else◌, some_of, map,
}

pub data BodyDescriptor (Schema : Type 0) : Type 0 where
  json_body : Schema → BodyDescriptor Schema
  blob_body : BodyDescriptor Schema
  sse_body : Dict Schema → BodyDescriptor Schema

-- `content`: the media types and their bodies.
pub record ResponseEntry (Schema : Type 0) : Type 0 where
  pub content : Option (List (Text × BodyDescriptor Schema))
  pub allow_no_body : Bool

-- A bare schema stands for a JSON response.
pub data ApiContractResponse (Schema : Type 0) : Type 0 where
  typed : Schema → ApiContractResponse Schema
  entry : ResponseEntry Schema → ApiContractResponse Schema

pub data ResponseKind (Schema : Type 0) : Type 0 where
  no_content : ResponseKind Schema
  blob : ResponseKind Schema
  json : Schema → ResponseKind Schema
  sse : Dict Schema → ResponseKind Schema

pub data HttpStatusCodeRange : Type 0 where
  range_1xx range_2xx range_3xx range_4xx range_5xx : HttpStatusCodeRange

pub data StatusKey : Type 0 where
  code_key : ℕ → StatusKey
  range_key : HttpStatusCodeRange → StatusKey
  default_key : StatusKey

abbrev pub ResponsesByStatusCode : Type 0 → Type 0
ResponsesByStatusCode Schema = StatusKey → Option (ApiContractResponse Schema)

-- The white space that `trim` removes.
abbrev is_space : ℕ → Bool
is_space c =
    (leb 9 c && leb c 13)
    || c == 32
    || c == 160
    || c == 0x1680
    || (leb 0x2000 c && leb c 0x200a)
    || c == 0x2028
    || c == 0x2029
    || c == 0x202f
    || c == 0x205f
    || c == 0x3000
    || c == 0xfeff

trim_start : Text → Text
trim_start [] = []
trim_start (c ∷ s) = let rest = trim_start s in if is_space c then rest else c ∷ s

trim_end : Text → Text
trim_end [] = []
trim_end (c ∷ s) = elim (trim_end s) [ [] ↦ if is_space c then [] else c ∷ [] | d ∷ t ↦ c ∷ d ∷ t ]

-- `split(';')[0]`
before_semicolon : Text → Text
before_semicolon [] = []
before_semicolon (c ∷ s) = let rest = before_semicolon s in if c == 59 then [] else c ∷ rest

unfoldable pub normalize_media_type : Text → Text
unfolding trim_start trim_end before_semicolon
normalize_media_type t = ascii_lower (trim_end (trim_start (before_semicolon t)))

abbrev pub is_json : Text → Bool
is_json t = text_eq (normalize_media_type t) (codes "application/json")

-- `!contentType` holds of an empty text too.
abbrev pub given : Option Text → Option Text
given none = none
given (some []) = none
given (some (c ∷ t)) = some (c ∷ t)

module _ {Schema : Type 0} where
  unfoldable pub descriptor_to_kind : BodyDescriptor Schema → ResponseKind Schema
  descriptor_to_kind blob_body = blob
  descriptor_to_kind (sse_body schemas) = sse schemas
  descriptor_to_kind (json_body schema) = json schema

  -- The descriptor of the first media type that is the target's.
  unfoldable pub find_descriptor :
      Text → List (Text × BodyDescriptor Schema) → Option (BodyDescriptor Schema)
  find_descriptor target [] = none
  find_descriptor target ((media, d) ∷ es) =
      if text_eq (normalize_media_type media) target then some d else find_descriptor target es

  unfoldable pub only_descriptor :
      List (Text × BodyDescriptor Schema) → Option (BodyDescriptor Schema)
  only_descriptor [] = none
  only_descriptor ((media, d) ∷ []) = some d
  only_descriptor (e ∷ e' ∷ es) = none

  -- What is left when no media type has matched.
  unfoldable pub fallback :
      Bool → List (Text × BodyDescriptor Schema) → Option (ResponseKind Schema)
  unfolding only_descriptor descriptor_to_kind
  fallback true es = none
  fallback false es = elim (only_descriptor es) [
    | none ↦ none
    | some d ↦ some (descriptor_to_kind d)
  ]

  -- The body of the media type, or what is left without one.
  unfoldable pub resolve_media :
      List (Text × BodyDescriptor Schema) → Bool → Text → Option (ResponseKind Schema)
  unfolding find_descriptor fallback descriptor_to_kind
  resolve_media es strict target = elim (find_descriptor target es) [
    | none ↦ fallback strict es
    | some d ↦ some (descriptor_to_kind d)
  ]

  unfoldable pub resolve_content :
      List (Text × BodyDescriptor Schema) → Bool → Option Text → Bool → Option (ResponseKind Schema)
  unfolding resolve_media fallback
  resolve_content es allow none strict = if allow then some no_content else fallback strict es
  resolve_content es allow (some t) strict = resolve_media es strict (normalize_media_type t)

  unfoldable pub resolve_content_entry :
      ResponseEntry Schema → Option Text → Bool → Option (ResponseKind Schema)
  unfolding resolve_content
  resolve_content_entry e content_type strict = elim e.content [
    | none ↦ some no_content
    | some es ↦ resolve_content es e.allow_no_body (given content_type) strict
  ]

  unfoldable pub resolve_typed : Schema → Option Text → Bool → Option (ResponseKind Schema)
  resolve_typed schema none strict = if strict then none else some (json schema)
  resolve_typed schema (some t) strict =
      if is_json t then some (json schema) else if strict then none else some (json schema)

  unfoldable pub resolve_contract_response :
      ApiContractResponse Schema → Option Text → Bool → Option (ResponseKind Schema)
  unfolding resolve_content_entry resolve_typed
  resolve_contract_response (entry e) content_type strict =
      resolve_content_entry e content_type strict
  resolve_contract_response (typed schema) content_type strict =
      resolve_typed schema (given content_type) strict

  declares_sse : List (Text × BodyDescriptor Schema) → Bool
  declares_sse [] = false
  declares_sse ((media, sse_body schemas) ∷ es) = true
  declares_sse ((media, blob_body) ∷ es) = declares_sse es
  declares_sse ((media, json_body schema) ∷ es) = declares_sse es

  has_sse : Option (ApiContractResponse Schema) → Bool
  unfolding declares_sse
  has_sse none = false
  has_sse (some (typed schema)) = false
  has_sse (some (entry e)) = elim e.content [ none ↦ false | some es ↦ declares_sse es ]

unfoldable pub get_range_key : ℕ → Option HttpStatusCodeRange
get_range_key c =
    if leb 100 c && ltb c 200
    then some range_1xx
    else if leb 200 c && ltb c 300
    then some range_2xx
    else if leb 300 c && ltb c 400
    then some range_3xx
    else if leb 400 c && ltb c 500
    then some range_4xx
    else if leb 500 c && ltb c 600
    then some range_5xx
    else none

module _ {Schema : Type 0} (responses : ResponsesByStatusCode Schema) where
  range_entry : Option HttpStatusCodeRange → Option (ApiContractResponse Schema)
  range_entry none = none
  range_entry (some r) = responses (range_key r)

  -- The entry of the code, else of its range, else the default one.
  unfoldable pub declared_for : ℕ → Option (ApiContractResponse Schema)
  unfolding range_entry get_range_key
  declared_for status = elim (responses (code_key status)) [
    | some d ↦ some d
    | none ↦ elim (range_entry (get_range_key status)) [
      | some d ↦ some d
      | none ↦ responses default_key
    ]
  ]

  unfoldable pub resolve_response_entry : ℕ → Option Text → Bool → Option (ResponseKind Schema)
  unfolding declared_for resolve_contract_response
  resolve_response_entry status content_type strict = elim (declared_for status) [
    | none ↦ none
    | some d ↦ resolve_contract_response d content_type strict
  ]

  unfoldable pub has_any_success_sse_response : Bool
  unfolding has_sse
  has_any_success_sse_response =
      some_of (λ key. has_sse (responses key))
        (map code_key (200 ∷ 201 ∷ 202 ∷ 203 ∷ 204 ∷ 205 ∷ 206 ∷ 207 ∷ 208 ∷ 226 ∷ [])
          ++ range_key range_2xx ∷ default_key ∷ [])
