-- ===== src/Auth/Jwt/Tokens.antt =====
-- When a request with a token is authenticated.
use shared_ts_libs.Base.{
  ℕ, true, ◌≡◌, ◌≢◌, ◌↔◌, refl, [], ◌∷◌, ◌++◌, Option, none, some, String, Text, starts_with, arith,
  sym, ap, ◌∙◌,
}
use mathlib.Core.Path.{subst}
use shared_ts_libs.Auth.Jwt.{
  AuthResult, success, Settled, resolved, rejected, Payload, object, no_object, decode,
  handle_decoded, Header, absent, single, several, bearer, extract_bearer_token, authenticate_jwt,
}

-- A header carries a token exactly if it is one text that is `Bearer ` and the token.
starts_with-bearer :
    (p header : Text) → starts_with p header ≡ true → (rest : Text) × (header ≡ p ++ rest)
starts_with-bearer [] header h = (header, refl)
starts_with-bearer (c ∷ p) [] h = cc
starts_with-bearer (c ∷ p) (d ∷ header) h =
    let (rest, e) = starts_with-bearer p header (ground arith) in (rest, ground arith)

bearer-extract_bearer_token :
    (token : Text) → extract_bearer_token (single (bearer ++ token)) ≡ some token
unfolding extract_bearer_token
bearer-extract_bearer_token token = refl

bearer_token_unique :
    (header rest token : Text)
    → header ≡ bearer ++ rest
    → extract_bearer_token (single header) ≡ some token
    → single header ≡ single (bearer ++ token)
bearer_token_unique header rest token e h =
    let same : some rest ≡ some token =
      sym (bearer-extract_bearer_token rest)
      ∙ ap (λ t. extract_bearer_token (single t)) (sym e)
      ∙ h in
    let same_rest : rest ≡ token = cc in ap single (e ∙ ap (λ t. bearer ++ t) same_rest)

extract_bearer_token-bearer :
    (header : Header) (token : Text)
    → extract_bearer_token header ≡ some token
    → header ≡ single (bearer ++ token)
unfolding extract_bearer_token
extract_bearer_token-bearer absent token h = cc
extract_bearer_token-bearer (several hs) token h = cc
extract_bearer_token-bearer (single header) token h =
    let (rest, e) = starts_with-bearer bearer header (ground arith) in
    bearer_token_unique header rest token e h

-- What a request must bring to be authenticated.
pub record IsAuthentic {P I : Type 0} (internal : P → Text → Settled (AuthResult I))
    (decode_fn : Text → Settled (Payload P)) (header : Header) (i : I) : Type 0 where
  pub token : Text
  pub claims : P
  pub carried : header ≡ single (bearer ++ token)
  pub not_empty : token ≢ []
  pub verified : decode_fn token ≡ resolved (object claims)
  pub accepted : internal claims token ≡ resolved (success i)

module _ {P I : Type 0} (internal : P → Text → Settled (AuthResult I)) (expired_code : String)
    (decode_fn : Text → Settled (Payload P)) (i : I) where
  IsAuthentic-of_token :
      (c : ℕ) (token : Text) (fetched : Settled (Payload P))
      → decode_fn (c ∷ token) ≡ fetched
      → authenticate_jwt internal (decode expired_code decode_fn) (single (bearer ++ c ∷ token))
        ≡ resolved (success i)
      → IsAuthentic internal decode_fn (single (bearer ++ c ∷ token)) i
  unfolding authenticate_jwt decode extract_bearer_token
  IsAuthentic-of_token c token (resolved (object p)) f h = record {
    token = c ∷ token;
    claims = p;
    carried = refl;
    not_empty = λ e. cc;
    verified = f;
    accepted = rw (f, handle_decoded) at h;
  }
  IsAuthentic-of_token c token (resolved no_object) f h = ground arith
  IsAuthentic-of_token c token (rejected x) f h = ground arith

  IsAuthentic-of_header :
      (header : Header) (extracted : Option Text)
      → extract_bearer_token header ≡ extracted
      → authenticate_jwt internal (decode expired_code decode_fn) header ≡ resolved (success i)
      → IsAuthentic internal decode_fn header i
  unfolding authenticate_jwt
  IsAuthentic-of_header header none e h = ground arith
  IsAuthentic-of_header header (some []) e h = ground arith
  IsAuthentic-of_header header (some (c ∷ token)) e h =
      let carried = extract_bearer_token-bearer header (c ∷ token) e in
      subst (λ x. IsAuthentic internal decode_fn x i) (sym carried)
        (IsAuthentic-of_token c token (decode_fn (c ∷ token)) refl (
          subst
            (λ x.
              authenticate_jwt internal (decode expired_code decode_fn) x ≡ resolved (success i))
            carried h))

  authenticate_of_token :
      (token : Text) (p : P)
      → token ≢ []
      → decode_fn token ≡ resolved (object p)
      → internal p token ≡ resolved (success i)
      → authenticate_jwt internal (decode expired_code decode_fn) (single (bearer ++ token))
        ≡ resolved (success i)
  unfolding authenticate_jwt decode extract_bearer_token
  authenticate_of_token [] p full f h = absurd (full refl)
  authenticate_of_token (c ∷ token) p full f h = rw (f, handle_decoded) h

  -- A request is authenticated exactly if its header is one text that is `Bearer ` and a token which
  -- is not empty, the token library verifies this token and returns an object, and the subclass
  -- accepts the object.
  pub authenticate_jwt-success_iff :
      (header : Header)
      → (authenticate_jwt internal (decode expired_code decode_fn) header ≡ resolved (success i))
        ↔ IsAuthentic internal decode_fn header i
  authenticate_jwt-success_iff header = (
    IsAuthentic-of_header header (extract_bearer_token header) refl,
    λ a.
        subst
          (λ x. authenticate_jwt internal (decode expired_code decode_fn) x ≡ resolved (success i))
          (sym a.carried)
          (authenticate_of_token a.token a.claims a.not_empty a.verified a.accepted),
  )
