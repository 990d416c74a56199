-- ===== src/Auth/Chain.antt =====
-- AuthenticatorChain.ts and createAuthenticationPreHandler.ts. An authenticator is a function of the
-- request; the run of a chain is its result with the number of authenticators that were asked.
use shared_ts_libs.Base.{
  ℕ, suc, ◌+◌, ◌≡◌, ◌≢◌, ◌↔◌, ◌⊎◌, refl, arith, List, [], ◌∷◌, ◌++◌, Option, some, All, length,
}
use shared_ts_libs.Auth.Jwt.{
  AuthFailureReason, invalid_credentials, expired_credentials, AuthResult, success, failure, Thrown,
  Settled, resolved, rejected,
}

abbrev one_more {ℓ} : {A : Type ℓ} → A × ℕ → A × ℕ
one_more (a, asked) = (a, suc asked)

module _ {R I : Type 0} (request : R) where
  -- Only invalid credentials make the chain go on.
  after_result : Settled (AuthResult I) → Settled (AuthResult I) × ℕ → Settled (AuthResult I) × ℕ
  after_result (resolved (failure invalid_credentials)) rest = one_more rest
  after_result result rest = (result, 1)

  unfoldable pub authenticate_chain : List (R → Settled (AuthResult I)) → Settled (AuthResult I) × ℕ
  unfolding after_result
  authenticate_chain [] = (resolved (failure invalid_credentials), 0)
  authenticate_chain (authenticator ∷ authenticators) =
      let rest = authenticate_chain authenticators in after_result (authenticator request) rest

  -- An authenticator that hands the request on.
  abbrev pub PassesOn : (R → Settled (AuthResult I)) → Type 0
  PassesOn authenticator = authenticator request ≡ resolved (failure invalid_credentials)

  authenticate_chain-first :
      (before : List (R → Settled (AuthResult I))) (decisive : R → Settled (AuthResult I))
      (behind : List (R → Settled (AuthResult I)))
      → All PassesOn before
      → decisive request ≢ resolved (failure invalid_credentials)
      → authenticate_chain (before ++ decisive ∷ behind) ≡ (decisive request, length before + 1)
  unfolding authenticate_chain
  authenticate_chain-first [] decisive behind passes decides = ground arith
  authenticate_chain-first (a ∷ before) decisive behind passes decides =
      ground (arith, authenticate_chain-first before decisive behind)

  authenticate_chain-none :
      (authenticators : List (R → Settled (AuthResult I)))
      → All PassesOn authenticators
      → authenticate_chain authenticators
        ≡ (resolved (failure invalid_credentials), length authenticators)
  unfolding authenticate_chain
  authenticate_chain-none [] passes = refl
  authenticate_chain-none (a ∷ authenticators) passes =
      ground (arith, authenticate_chain-none authenticators)

  -- If all authenticators pass the request on, the chain has asked them all and answers that the
  -- credentials are invalid. If these are followed by one that does not, the chain has the result
  -- of that one, has asked all up to it, and asks none of those behind it.
  pub authenticate_chain-PassesOn :
      (before : List (R → Settled (AuthResult I)))
      → All PassesOn before
      → (authenticate_chain before ≡ (resolved (failure invalid_credentials), length before))
        × ((decisive : R → Settled (AuthResult I)) (behind : List (R → Settled (AuthResult I)))
            → decisive request ≢ resolved (failure invalid_credentials)
            → authenticate_chain (before ++ decisive ∷ behind)
              ≡ (decisive request, length before + 1))
  authenticate_chain-PassesOn before passes = (
    authenticate_chain-none before passes,
    λ decisive behind decides. authenticate_chain-first before decisive behind passes decides,
  )

-- PublicNonRecoverableError: the HTTP status and the error code.
pub record HttpError : Type 0 where
  pub http_status_code : ℕ
  pub error_code : AuthFailureReason

pub data HandlerResult : Type 0 where
  passes : HandlerResult
  throws_http : HttpError → HandlerResult
  throws_other : Thrown → HandlerResult

-- What the handler does with `request.reqContext.auth`, and whether it lets the request through.
after_authentication : {I : Type 0} → Option I → Settled (AuthResult I) → HandlerResult × Option I
after_authentication auth (resolved (success info)) = (passes, some info)
after_authentication auth (resolved (failure expired_credentials)) =
    (throws_http (record { http_status_code = 401; error_code = expired_credentials }), auth)
after_authentication auth (resolved (failure invalid_credentials)) =
    (throws_http (record { http_status_code = 401; error_code = invalid_credentials }), auth)
after_authentication auth (rejected e) = (throws_other e, auth)

module _ {R I : Type 0} where
  unfoldable pub authentication_pre_handler :
      (R → Settled (AuthResult I)) → R → Option I → HandlerResult × Option I
  unfolding after_authentication
  authentication_pre_handler authenticator request auth =
      after_authentication auth (authenticator request)

  -- The handler in front of a chain lets a request through with an info exactly if the chain
  -- succeeds with it; where it does not let the request through, the request's info stays as it was.
  pub authentication_pre_handler-passes_iff :
      (authenticators : List (R → Settled (AuthResult I))) (request : R) (auth : Option I)
      → ((info : I)
          → (authentication_pre_handler (λ r. (authenticate_chain r authenticators).0) request auth
              ≡ (passes, some info))
            ↔ ((authenticate_chain request authenticators).0 ≡ resolved (success info)))
        × (((authentication_pre_handler
                (λ r. (authenticate_chain r authenticators).0)
                request
                auth).0
              ≡ passes)
            ⊎ ((authentication_pre_handler
                  (λ r. (authenticate_chain r authenticators).0)
                  request
                  auth).1
                ≡ auth))
  unfolding authentication_pre_handler
  authentication_pre_handler-passes_iff authenticators request auth =
      (λ info. ground arith, ground arith)
