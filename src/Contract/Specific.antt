-- ===== src/Contract/Specific.antt =====
-- Which entry of a contract a status selects.
use mathlib.Core.Path.{subst}
use mathlib.Core.Option.{some_inj}
use shared_ts_libs.Base.{
  ℕ, ◌+◌, ◌*◌, ◌≤◌, ◌<◌, ◌≡◌, refl, arith, Option, none, some, inl, inr, Option-cases, ◌∙◌, sym,
}
use shared_ts_libs.Contract.{
  HttpStatusCodeRange, range_1xx, range_2xx, range_3xx, range_4xx, range_5xx, code_key, range_key,
  default_key, get_range_key, range_entry, ResponsesByStatusCode, ApiContractResponse, declared_for,
}

abbrev pub hundreds : HttpStatusCodeRange → ℕ
hundreds range_1xx = 1
hundreds range_2xx = 2
hundreds range_3xx = 3
hundreds range_4xx = 4
hundreds range_5xx = 5

abbrev pub IsInRange : ℕ → HttpStatusCodeRange → Type 0
IsInRange status r = (hundreds r * 100 ≤ status) × (status < hundreds r * 100 + 100)

-- The entry of the status; where it has none, that of its range of a hundred; where this has none, the
-- default entry.
pub data IsMostSpecific {Schema : Type 0} (responses : ResponsesByStatusCode Schema) (status : ℕ)
    : ApiContractResponse Schema → Type 0 where
  by_code :
      {d : ApiContractResponse Schema}
      → responses (code_key status) ≡ some d
      → IsMostSpecific responses status d
  by_range :
      {d : ApiContractResponse Schema} {r : HttpStatusCodeRange}
      → responses (code_key status) ≡ none
      → IsInRange status r
      → responses (range_key r) ≡ some d
      → IsMostSpecific responses status d
  by_default :
      {d : ApiContractResponse Schema}
      → responses (code_key status) ≡ none
      → ((r : HttpStatusCodeRange) → IsInRange status r → responses (range_key r) ≡ none)
      → responses default_key ≡ some d
      → IsMostSpecific responses status d

get_range_key-IsInRange :
    (status : ℕ) (r : HttpStatusCodeRange) → get_range_key status ≡ some r → IsInRange status r
unfolding get_range_key
get_range_key-IsInRange status range_1xx h = ground arith
get_range_key-IsInRange status range_2xx h = ground arith
get_range_key-IsInRange status range_3xx h = ground arith
get_range_key-IsInRange status range_4xx h = ground arith
get_range_key-IsInRange status range_5xx h = ground arith

IsInRange-get_range_key :
    (status : ℕ) (r : HttpStatusCodeRange) → IsInRange status r → get_range_key status ≡ some r
unfolding get_range_key
IsInRange-get_range_key status range_1xx h = ground arith
IsInRange-get_range_key status range_2xx h = ground arith
IsInRange-get_range_key status range_3xx h = ground arith
IsInRange-get_range_key status range_4xx h = ground arith
IsInRange-get_range_key status range_5xx h = ground arith

module _ {Schema : Type 0} where
  -- What comes after the code, when the status is in the range `r`, or in none.
  after_code :
      (responses : ResponsesByStatusCode Schema) (status : ℕ) {d : ApiContractResponse Schema}
      → responses (code_key status) ≡ none
      → (r : Option HttpStatusCodeRange) → get_range_key status ≡ r
      → elim (range_entry responses r) [ some d ↦ some d | none ↦ responses default_key ] ≡ some d
      → IsMostSpecific responses status d
  unfolding range_entry
  after_code responses status c none e h =
      by_default c (λ r i. absurd (ground (arith, e, IsInRange-get_range_key status r i))) h
  after_code responses status c (some r) e h = elim (Option-cases (responses (range_key r))) [
    | inl empty ↦
        by_default c
          (λ r' i.
            subst (λ r. responses (range_key r) ≡ none)
              (some_inj.0 (sym e ∙ IsInRange-get_range_key status r' i)) empty)
          (rw empty at h)
    | inr (d', found) ↦ by_range c (get_range_key-IsInRange status r e) (found ∙ (rw found at h))
  ]

  pub declared_for-IsMostSpecific :
      (responses : ResponsesByStatusCode Schema) (status : ℕ) {d : ApiContractResponse Schema}
      → declared_for responses status ≡ some d
      → IsMostSpecific responses status d
  unfolding declared_for range_entry
  declared_for-IsMostSpecific responses status {d} h =
      elim (Option-cases (responses (code_key status))) [
        | inl c ↦
            after_code responses status c (get_range_key status) refl (rw (c, declared_for) at h)
        | inr (d', c) ↦ by_code (c ∙ (rw (c, declared_for) at h))
      ]
