-- ===== src/User/Requests.antt =====
-- Requests with a token: who gets past the middleware.
use online_game.Prelude.{ℕ, ◌≡◌, ◌⊎◌, String, inl, inr, Bool-cases, true, false, arith}
use online_game.Prelude.Result.{Result-cases, returns, fails}
use online_game.Prelude.Equality.{◌==◌, string_eq}
use online_game.Auth.{Claims, validate_token}
use online_game.User.{Libraries, Service}
use online_game.User.Accounts.{validate_user_token}
use online_game.User.Http.{extract_token, auth_middleware, users_me, handle_get_current_user}
use online_game.User.Grpc.{grpc_validate_token}

module _ {D C R : Type 0} (libs : Libraries D C R) where
  -- `GET /users/me` looks up the user of the token in the header if there is a token and it is
  -- accepted. In every other case it answers with the status and the code of a missing
  -- authorization and changes nothing.
  pub users_me_lem :
      (now : ℕ) (header : String) (s : Service D C R)
      → ((extract_token header ≡ "")
            ⊎ (e : String) × (validate_token libs.jwt libs.redis libs.hash now s.jwt_manager
                  (extract_token header)
                ≡ fails e))
          × ((users_me libs now header s).0 ≡ s)
          × ((users_me libs now header s).1.status ≡ 401)
          × ((users_me libs now header s).1.body.code ≡ 40100)
        ⊎ (claims : Claims) × (validate_token libs.jwt libs.redis libs.hash now s.jwt_manager
              (extract_token header)
            ≡ returns claims)
          × (users_me libs now header s ≡ handle_get_current_user libs claims.user_id s)
  unfolding users_me auth_middleware validate_user_token
  users_me_lem now header s =
      elim (Result-cases
        (validate_token libs.jwt libs.redis libs.hash now s.jwt_manager (extract_token header))) [
          | inl (e, bad) ↦ inl (inr (e, bad), ground arith, ground arith, ground arith)
          | inr (claims, good) ↦ elim (Bool-cases (extract_token header == "")) [
            | inl absent ↦ inl (
              inl ((string_eq.decides (extract_token header) "").0 absent),
              ground arith,
              ground arith,
              ground arith,
            )
            | inr present ↦ inr (claims, good, ground arith)
          ]
        ]

  -- The gRPC call says of a token that it is valid if it is accepted, with the user of the token,
  -- and that it is not in every other case.
  pub grpc_validate_token_lem :
      (now : ℕ) (token : String) (s : Service D C R)
      → let response = grpc_validate_token libs now token s in
        ((e : String) × (validate_token libs.jwt libs.redis libs.hash now s.jwt_manager token
            ≡ fails e)
          × (response.valid ≡ false))
        ⊎ (claims : Claims) × (validate_token libs.jwt libs.redis libs.hash now s.jwt_manager token
            ≡ returns claims)
          × (response.valid ≡ true)
          × (response.user_id ≡ claims.user_id)
          × (response.username ≡ claims.username)
          × (response.role ≡ claims.role)
  unfolding grpc_validate_token validate_user_token
  grpc_validate_token_lem now token s =
      elim (Result-cases (validate_token libs.jwt libs.redis libs.hash now s.jwt_manager token)) [
        | inl (e, bad) ↦ inl (e, bad, ground arith)
        | inr (claims, good) ↦
            inr (claims, good, ground arith, ground arith, ground arith, ground arith)
      ]
