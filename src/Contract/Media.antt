-- ===== src/Contract/Media.antt =====
-- Which parts of a content type count.
use shared_ts_libs.Base.{
  ℕ, Bool, ◌≡◌, refl, arith, [], ◌∷◌, ◌++◌, some, Text, ap, ap, Option-cases, inl, inr,
}
use shared_ts_libs.Contract.{
  ResponsesByStatusCode, ApiContractResponse, typed, entry, normalize_media_type, before_semicolon,
  declared_for, resolve_media, resolve_content, resolve_content_entry, resolve_contract_response,
  resolve_response_entry,
}

before_semicolon-parameters :
    (t parameters : Text) → before_semicolon (t ++ 59 ∷ parameters) ≡ before_semicolon t
unfolding before_semicolon
before_semicolon-parameters [] parameters = refl
before_semicolon-parameters (c ∷ t) parameters =
    ground (arith, before_semicolon-parameters t parameters)

normalize_media_type-parameters :
    (t parameters : Text) → normalize_media_type (t ++ 59 ∷ parameters) ≡ normalize_media_type t
unfolding normalize_media_type
normalize_media_type-parameters t parameters = rw (before_semicolon-parameters t parameters) refl

module _ {Schema : Type 0} where
  response-parameters :
      (d : ApiContractResponse Schema) (c : ℕ) (t parameters : Text) (strict : Bool)
      → resolve_contract_response d (some (c ∷ t ++ 59 ∷ parameters)) strict
        ≡ resolve_contract_response d (some (c ∷ t)) strict
  unfolding resolve_contract_response resolve_content_entry resolve_content
  response-parameters (typed schema) c t parameters strict =
      rw (normalize_media_type-parameters (c ∷ t) parameters) refl
  response-parameters (entry e) c t parameters strict = elim (Option-cases e.content) [
    | inl h ↦ rw h refl
    | inr (es, h) ↦
        rw (h, resolve_content_entry)
          (ap (resolve_media es strict) (normalize_media_type-parameters (c ∷ t) parameters))
  ]

  -- Whatever a contract declares, what follows a semicolon in a response's content type does not
  -- change the body that is resolved.
  pub resolve_response_entry-parameters :
      (responses : ResponsesByStatusCode Schema) (status c : ℕ) (t parameters : Text)
      (strict : Bool)
      → resolve_response_entry responses status (some (c ∷ t ++ 59 ∷ parameters)) strict
        ≡ resolve_response_entry responses status (some (c ∷ t)) strict
  unfolding resolve_response_entry
  resolve_response_entry-parameters responses status c t parameters strict =
      elim (Option-cases (declared_for responses status)) [
        | inl h ↦ rw (h, resolve_response_entry) refl
        | inr (d, h) ↦ rw (h, resolve_response_entry) (response-parameters d c t parameters strict)
      ]
