-- ===== src/Contract/Kinds.antt =====
-- What a resolved kind says of the contract: which of its entries is meant, and which media type.
use mathlib.Core.Path.{subst}
use mathlib.Core.Option.{some_inj}
use shared_ts_libs.Base.{
  ℕ, Bool, true, false, ◌≡◌, refl, arith, List, [], ◌∷◌, ◌++◌, Option, none, some, Text, codes,
  text_eq, text_eq→eq, ◌⊎◌, inl, inr, Option-cases, Bool-cases, All, if◌then◌else◌, ap,
}
use shared_ts_libs.Contract.Specific.{IsMostSpecific, declared_for-IsMostSpecific}
use shared_ts_libs.Contract.{
  BodyDescriptor, ResponsesByStatusCode, ResponseEntry, ApiContractResponse, typed, entry,
  ResponseKind, is_json, no_content, json, given, normalize_media_type, descriptor_to_kind,
  find_descriptor, only_descriptor, fallback, resolve_content, resolve_media, resolve_content_entry,
  resolve_typed, resolve_contract_response, declared_for, resolve_response_entry,
}

-- `d` is the body of the first media type of the list that is `target`.
pub record IsFirst {Schema : Type 0} (target : Text) (es : List (Text × BodyDescriptor Schema))
    (d : BodyDescriptor Schema) : Type 0 where
  pub before : List (Text × BodyDescriptor Schema)
  pub media : Text
  pub later : List (Text × BodyDescriptor Schema)
  pub parts : es ≡ before ++ (media, d) ∷ later
  pub fits : normalize_media_type media ≡ target
  pub first :
      All
        (λ (e : Text × BodyDescriptor Schema). text_eq (normalize_media_type e.0) target ≡ false)
        before

-- What the entry declares for a response with the content type.
pub data Declares {Schema : Type 0} (content_type : Option Text)
    : ApiContractResponse Schema → ResponseKind Schema → Type 0 where
  json_typed :
      {schema : Schema} {t : Text}
      → given content_type ≡ some t
      → normalize_media_type t ≡ codes "application/json"
      → Declares content_type (typed schema) (json schema)
  no_body :
      {e : ResponseEntry Schema} → e.content ≡ none → Declares content_type (entry e) no_content
  left_out :
      {e : ResponseEntry Schema}
      → given content_type ≡ none
      → e.allow_no_body ≡ true
      → Declares content_type (entry e) no_content
  body :
      {e : ResponseEntry Schema} {t : Text} {es : List (Text × BodyDescriptor Schema)}
      {d : BodyDescriptor Schema}
      → given content_type ≡ some t
      → e.content ≡ some es
      → IsFirst (normalize_media_type t) es d
      → Declares content_type (entry e) (descriptor_to_kind d)

-- The entry declares one body only.
pub data IsSole {Schema : Type 0} : ApiContractResponse Schema → ResponseKind Schema → Type 0 where
  sole_typed : {schema : Schema} → IsSole (typed schema) (json schema)
  sole_body :
      {e : ResponseEntry Schema} {media : Text} {d : BodyDescriptor Schema}
      → e.content ≡ some ((media, d) ∷ [])
      → IsSole (entry e) (descriptor_to_kind d)

module _ {Schema : Type 0} where
  find_descriptor-IsFirst :
      (target : Text) (es : List (Text × BodyDescriptor Schema)) {d : BodyDescriptor Schema}
      → find_descriptor target es ≡ some d
      → IsFirst target es d
  unfolding find_descriptor
  find_descriptor-IsFirst target [] h = absurd (ground arith)
  find_descriptor-IsFirst target ((media, d') ∷ es) {d} h =
      elim (Bool-cases (text_eq (normalize_media_type media) target)) [
        | inl found ↦ record {
          before = [];
          media = media;
          later = es;
          parts = ground arith;
          fits = text_eq→eq _ _ found;
          first = tt;
        }
        | inr other ↦
            let rest = find_descriptor-IsFirst target es (rw other at h) in
            record {
              before = (media, d') ∷ rest.before;
              media = rest.media;
              later = rest.later;
              parts = ap (λ l. (media, d') ∷ l) rest.parts;
              fits = rest.fits;
              first = (other, rest.first);
            }
      ]

  fallback-IsSole :
      (e : ResponseEntry Schema) (strict : Bool) (es : List (Text × BodyDescriptor Schema))
      {k : ResponseKind Schema}
      → e.content ≡ some es
      → fallback strict es ≡ some k
      → (strict ≡ false) × IsSole (entry e) k
  unfolding fallback only_descriptor
  fallback-IsSole e true es c h = absurd (ground arith)
  fallback-IsSole e false [] c h = absurd (ground arith)
  fallback-IsSole e false ((media, d) ∷ []) c h =
      (refl, subst (λ k. IsSole (entry e) k) (some_inj.0 h) (sole_body c))
  fallback-IsSole e false (x ∷ y ∷ es) c h = absurd (ground arith)

  -- Why the entry `d` comes to `k`.
  abbrev pub IsResolution :
      Bool → Option Text → ApiContractResponse Schema → ResponseKind Schema → Type 0
  IsResolution strict content_type d k = Declares content_type d k ⊎ ((strict ≡ false) × IsSole d k)

  content-IsResolution :
      (e : ResponseEntry Schema) (content_type : Option Text) (strict : Bool)
      (es : List (Text × BodyDescriptor Schema)) (type : Option Text) {k : ResponseKind Schema}
      → e.content ≡ some es
      → given content_type ≡ type
      → resolve_content es e.allow_no_body type strict ≡ some k
      → IsResolution strict content_type (entry e) k
  unfolding resolve_content resolve_media
  content-IsResolution e content_type strict es none {k} c g h = elim (Bool-cases e.allow_no_body) [
    | inl allowed ↦ inl (
        subst (λ k. Declares content_type (entry e) k) (some_inj.0 (rw allowed at h))
          (left_out g allowed))
    | inr needed ↦ inr (fallback-IsSole e strict es c (rw needed at h))
  ]
  content-IsResolution e content_type strict es (some t) {k} c g h =
      elim (Option-cases (find_descriptor (normalize_media_type t) es)) [
        | inl missing ↦ inr (fallback-IsSole e strict es c (rw (missing, resolve_media) at h))
        | inr (d, found) ↦ inl (
            subst (λ k. Declares content_type (entry e) k)
              (some_inj.0 (rw (found, resolve_media) at h))
              (body g c (find_descriptor-IsFirst _ es found)))
      ]

  typed-IsResolution-other :
      (schema : Schema) (content_type : Option Text) (strict : Bool) {k : ResponseKind Schema}
      → (if strict then none else some (json schema)) ≡ some k
      → IsResolution strict content_type (typed schema) k
  typed-IsResolution-other schema content_type true h = absurd (ground arith)
  typed-IsResolution-other schema content_type false h =
      inr (refl, subst (λ k. IsSole (typed schema) k) (some_inj.0 h) sole_typed)

  typed-IsResolution :
      (schema : Schema) (content_type : Option Text) (strict : Bool) (type : Option Text)
      {k : ResponseKind Schema}
      → given content_type ≡ type
      → resolve_typed schema type strict ≡ some k
      → IsResolution strict content_type (typed schema) k
  unfolding resolve_typed
  typed-IsResolution schema content_type true none g h = absurd (ground arith)
  typed-IsResolution schema content_type false none g h =
      inr (refl, subst (λ k. IsSole (typed schema) k) (some_inj.0 h) sole_typed)
  typed-IsResolution schema content_type strict (some t) g h = elim (Bool-cases (is_json t)) [
    | inl fits ↦ inl (
        subst (λ k. Declares content_type (typed schema) k) (some_inj.0 (rw fits at h))
          (json_typed g (text_eq→eq _ _ fits)))
    | inr other ↦ typed-IsResolution-other schema content_type strict (rw other at h)
  ]

  response-IsResolution :
      (d : ApiContractResponse Schema) (content_type : Option Text) (strict : Bool)
      {k : ResponseKind Schema}
      → resolve_contract_response d content_type strict ≡ some k
      → IsResolution strict content_type d k
  unfolding resolve_contract_response resolve_content_entry
  response-IsResolution (typed schema) content_type strict h =
      typed-IsResolution schema content_type strict _ refl h
  response-IsResolution (entry e) content_type strict {k} h = elim (Option-cases e.content) [
    | inl empty ↦ inl (
        subst (λ k. Declares content_type (entry e) k)
          (some_inj.0 (rw (empty, resolve_content_entry) at h)) (no_body empty))
    | inr (es, c) ↦
        content-IsResolution e content_type strict es _ c refl (rw (c, resolve_content_entry) at h)
  ]

  -- A kind that is resolved is what the entry of the status, else of its range, else the default
  -- entry declares: for a body, what stands under the first media type that is the response's. Only
  -- where content types are not strict can it be the one body of an entry that declares no other.
  pub resolve_response_entry-IsResolution :
      (responses : ResponsesByStatusCode Schema) (status : ℕ) (content_type : Option Text)
      (strict : Bool) {k : ResponseKind Schema}
      → resolve_response_entry responses status content_type strict ≡ some k
      → (d : ApiContractResponse Schema) × IsMostSpecific responses status d
        × IsResolution strict content_type d k
  unfolding resolve_response_entry
  resolve_response_entry-IsResolution responses status content_type strict h =
      elim (Option-cases (declared_for responses status)) [
        | inl missing ↦ absurd (ground (arith, missing))
        | inr (d, found) ↦ (
          d,
          declared_for-IsMostSpecific responses status found,
          response-IsResolution d content_type strict (rw (found, resolve_response_entry) at h),
        )
      ]
