-- ===== src/Contract/Tests.antt =====
-- A contract with one entry for a status, one for a range, and a default.
use shared_ts_libs.Base.{
  ℕ, true, false, ◌==◌, if◌then◌else◌, ◌≡◌, refl, [], ◌∷◌, ◌++◌, Option, none, some, codes,
}
use shared_ts_libs.Contract.{
  json_body, sse_body, ApiContractResponse, typed, entry, no_content, json, code_key, range_key,
  default_key, range_4xx, ResponsesByStatusCode, normalize_media_type, resolve_response_entry,
  has_any_success_sse_response, declared_for, get_range_key,
}
use shared_ts_libs.Contract.Specific.{IsMostSpecific}
use shared_ts_libs.Contract.Kinds.{IsResolution, resolve_response_entry-IsResolution}
use shared_ts_libs.Contract.Media.{resolve_response_entry-parameters}

-- Schemas are numbers.
abbrev ok_entry : ApiContractResponse ℕ
ok_entry = entry (record {
  content = some (
      (codes "application/json", json_body 1)
      ∷ (codes "Application/JSON+01", json_body 2)
      ∷ (codes "text/event-stream", sse_body (("tick", 3) ∷ []))
      ∷ []);
  allow_no_body = false;
})

abbrev for_code : ℕ → Option (ApiContractResponse ℕ)
for_code n = if n == 200 then some ok_entry else none

abbrev responses : ResponsesByStatusCode ℕ
responses (code_key n) = for_code n
responses (range_key range_4xx) = some (typed 4)
responses (range_key r) = none
responses default_key = some (entry (record { content = none; allow_no_body = true }))

contract : Unit {0}
unfolding resolve_response_entry declared_for get_range_key normalize_media_type
    has_any_success_sse_response
contract = tt

resolution_tests :
    (resolve_response_entry responses 200 (some (codes "application/json; charset=utf-8")) true
      ≡ some (json 1))
    × (resolve_response_entry responses 200 (some (codes " application/json+01 ")) true
        ≡ some (json 2))
    × (resolve_response_entry responses 200 (some (codes "text/plain")) false ≡ none)
    × (resolve_response_entry responses 200 none true ≡ none)
    × (resolve_response_entry responses 404 none true ≡ none)
    × (resolve_response_entry responses 404 none false ≡ some (json 4))
    × (resolve_response_entry responses 302 (some (codes "text/plain")) true ≡ some no_content)
    × (has_any_success_sse_response responses ≡ true)
unfolding contract
resolution_tests = (refl, refl, refl, refl, refl, refl, refl, refl)

json_200 :
    resolve_response_entry responses 200 (some (codes "application/json")) true ≡ some (json 1)
unfolding contract
json_200 = refl

resolve_response_entry-IsResolution_example :
    (d : ApiContractResponse ℕ) × IsMostSpecific responses 200 d
    × IsResolution true (some (codes "application/json")) d (json 1)
resolve_response_entry-IsResolution_example =
    resolve_response_entry-IsResolution responses 200 (some (codes "application/json")) true
      json_200

resolve_response_entry-parameters_example :
    resolve_response_entry responses 200
      (some (b'a' ∷ codes "pplication/json" ++ 59 ∷ codes " charset=utf-8"))
      true
    ≡ resolve_response_entry responses 200 (some (b'a' ∷ codes "pplication/json")) true
resolve_response_entry-parameters_example =
    resolve_response_entry-parameters responses 200 b'a' (codes "pplication/json")
      (codes " charset=utf-8") true
