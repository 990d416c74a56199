-- ===== src/Auth/Tests.antt =====
-- Requests with good, expired and missing tokens.
use shared_ts_libs.Base.{
  ℕ, ◌==◌, if◌then◌else◌, ◌+◌, ◌≡◌, ◌≢◌, ◌↔◌, ◌⊎◌, refl, List, [], ◌∷◌, ◌++◌, Option, none, some,
  Text, codes,
}
use shared_ts_libs.Auth.Jwt.{
  invalid_credentials, expired_credentials, AuthResult, success, failure, token_error, unexpected,
  Settled, resolved, rejected, Payload, object, decode, Header, absent, single,
  extract_bearer_token, authenticate_jwt,
}
use shared_ts_libs.Auth.Jwt.Tokens.{IsAuthentic, authenticate_jwt-success_iff}
use shared_ts_libs.Auth.Chain.{
  authenticate_chain, authenticate_chain-PassesOn, HandlerResult, passes,
  authentication_pre_handler, authentication_pre_handler-passes_iff,
}

auth : Unit {0}
unfolding authenticate_jwt extract_bearer_token decode authenticate_chain authentication_pre_handler
auth = tt

-- A library that knows the token "k", finds "o" expired, and fails on the rest.
abbrev decode_fn : Text → Settled (Payload ℕ)
decode_fn [] = rejected (unexpected 1)
decode_fn (c ∷ token) =
    if c == b'k'
    then resolved (object 5)
    else if c == b'o'
    then rejected (token_error "EXPIRED")
    else rejected (unexpected 1)

abbrev internal : ℕ → Text → Settled (AuthResult ℕ)
internal claims token = resolved (success (claims + 1))

abbrev header : Header
header = single (codes "Bearer k")

jwt_tests :
    (authenticate_jwt internal (decode "EXPIRED" decode_fn) header ≡ resolved (success 6))
    × (authenticate_jwt internal (decode "EXPIRED" decode_fn) (single (codes "Bearer o"))
        ≡ resolved (failure expired_credentials))
    × (authenticate_jwt internal (decode "EXPIRED" decode_fn) (single (codes "Bearer "))
        ≡ resolved (failure invalid_credentials))
    × (authenticate_jwt internal (decode "EXPIRED" decode_fn) absent
        ≡ resolved (failure invalid_credentials))
unfolding auth
jwt_tests = (refl, refl, refl, refl)

authenticate_jwt-success_iff_example :
    (authenticate_jwt internal (decode "EXPIRED" decode_fn) header ≡ resolved (success 6))
    ↔ IsAuthentic internal decode_fn header 6
authenticate_jwt-success_iff_example =
    authenticate_jwt-success_iff internal "EXPIRED" decode_fn 6 header

-- Authenticators of requests that are numbers.
abbrev knows : ℕ → ℕ → Settled (AuthResult ℕ)
knows k request =
    if request == k then resolved (success k) else resolved (failure invalid_credentials)

abbrev expired : ℕ → Settled (AuthResult ℕ)
expired request = resolved (failure expired_credentials)

not_passed : expired 4 ≢ resolved (failure invalid_credentials)
not_passed e = cc

authenticate_chain-PassesOn_example :
    (authenticate_chain 4 (knows 2 ∷ knows 3 ∷ []) ≡ (resolved (failure invalid_credentials), 2))
    × ((decisive : ℕ → Settled (AuthResult ℕ)) (behind : List (ℕ → Settled (AuthResult ℕ)))
        → decisive 4 ≢ resolved (failure invalid_credentials)
        → authenticate_chain 4 ((knows 2 ∷ knows 3 ∷ []) ++ decisive ∷ behind) ≡ (decisive 4, 3))
authenticate_chain-PassesOn_example =
    authenticate_chain-PassesOn 4 (knows 2 ∷ knows 3 ∷ []) (refl, (refl, tt))

abbrev handler : ℕ → Option ℕ → HandlerResult × Option ℕ
handler = authentication_pre_handler (λ r. (authenticate_chain r (knows 2 ∷ knows 4 ∷ [])).0)

authentication_pre_handler-passes_iff_example :
    ((info : ℕ)
      → (handler 4 none ≡ (passes, some info))
        ↔ ((authenticate_chain 4 (knows 2 ∷ knows 4 ∷ [])).0 ≡ resolved (success info)))
    × (((handler 4 none).0 ≡ passes) ⊎ ((handler 4 none).1 ≡ none))
authentication_pre_handler-passes_iff_example =
    authentication_pre_handler-passes_iff (knows 2 ∷ knows 4 ∷ []) 4 none
