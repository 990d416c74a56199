-- ===== src/Auth/Jwt.antt =====
-- TokenDecoder.ts and JwtBasedAuthenticator.ts. `rejected` is a rejected promise or a thrown error;
-- logging is left out. The token library, what a subclass makes of a decoded token, and the code
-- that the library gives to an expired token are parameters.
pub mod Tokens
use shared_ts_libs.Base.{
  ℕ, Bool, true, false, ◌≡◌, List, [], ◌∷◌, Option, none, some, String, str_eq, Text, codes,
  starts_with, drop, if◌then◌else◌,
}

pub data AuthFailureReason : Type 0 where
  invalid_credentials expired_credentials : AuthFailureReason

pub data AuthResult (I : Type 0) : Type 0 where
  success : I → AuthResult I
  failure : AuthFailureReason → AuthResult I

-- What is thrown: a TokenError of the token library with its code, the decoder's own error for a
-- payload that is no object, or anything else.
pub data Thrown : Type 0 where
  token_error : (code : String) → Thrown
  not_an_object : Thrown
  unexpected : ℕ → Thrown

pub data Settled {ℓ} (A : Type ℓ) : Type ℓ where
  resolved : A → Settled A
  rejected : Thrown → Settled A

-- What the token library returns: an object, or another value.
pub data Payload (P : Type 0) : Type 0 where
  object : P → Payload P
  no_object : Payload P

pub data TokenValidationError : Type 0 where
  invalid_token expired_token : TokenValidationError

pub data Decoded (P : Type 0) : Type 0 where
  payload : P → Decoded P
  failed : TokenValidationError → Decoded P

map_token_error : (expired_code : String) → String → TokenValidationError
map_token_error expired_code code =
    if str_eq code expired_code then expired_token else invalid_token

module _ {P : Type 0} (expired_code : String) where
  handle_decode_error : Thrown → Settled (Decoded P)
  unfolding map_token_error
  handle_decode_error (token_error code) = resolved (failed (map_token_error expired_code code))
  handle_decode_error e = rejected e

  -- The throw of `handleSuccessfulDecode` is caught by the same `try`.
  handle_decoded : Settled (Payload P) → Settled (Decoded P)
  unfolding handle_decode_error
  handle_decoded (resolved (object p)) = resolved (payload p)
  handle_decoded (resolved no_object) = handle_decode_error not_an_object
  handle_decoded (rejected e) = handle_decode_error e

  unfoldable pub decode : (Text → Settled (Payload P)) → Text → Settled (Decoded P)
  unfolding handle_decoded
  decode decode_fn token = handle_decoded (decode_fn token)

-- `request.headers[tokenHeader]`
pub data Header : Type 0 where
  absent : Header
  single : Text → Header
  several : List Text → Header

abbrev pub bearer : Text
bearer = codes "Bearer "

-- An empty token is falsy, as `null` is.
unfoldable pub extract_bearer_token : Header → Option Text
extract_bearer_token (single header) =
    if starts_with bearer header then some (drop 7 header) else none
extract_bearer_token _ = none

module _ {P I : Type 0} (internal_authenticate : P → Text → Settled (AuthResult I)) where
  after_decode : Text → Settled (Decoded P) → Settled (AuthResult I)
  after_decode token (resolved (payload p)) = internal_authenticate p token
  after_decode token (resolved (failed expired_token)) = resolved (failure expired_credentials)
  after_decode token (resolved (failed invalid_token)) = resolved (failure invalid_credentials)
  after_decode token (rejected e) = rejected e

  with_token : (Text → Settled (Decoded P)) → Option Text → Settled (AuthResult I)
  unfolding after_decode
  with_token decoder none = resolved (failure invalid_credentials)
  with_token decoder (some []) = resolved (failure invalid_credentials)
  with_token decoder (some (c ∷ token)) = after_decode (c ∷ token) (decoder (c ∷ token))

  unfoldable pub authenticate_jwt : (Text → Settled (Decoded P)) → Header → Settled (AuthResult I)
  unfolding with_token
  authenticate_jwt decoder header = with_token decoder (extract_bearer_token header)
