-- ===== src/Admin/Access.antt =====
-- Who gets through to the administration: the middleware of cmd/admin-service/main.go. The client asks
-- the user service over gRPC.
use online_game.Prelude.{
  ℕ, String, ◌≡◌, sym, ◌∙◌, ◌⊎◌, inl, inr, refl, Option, none, some, not, arith, if◌then◌else◌,
  Bool-cases,
}
use online_game.Prelude.Equality.{◌==◌, string_eq}
use online_game.Prelude.Result.{Result, returns, fails}
use online_game.Auth.{Claims, validate_token}
use online_game.User as User
use online_game.User.Grpc.{ValidateTokenResponse, grpc_validate_token}
use online_game.User.Requests.{grpc_validate_token_lem}
use online_game.GameService.Access.{Gate, stopped, passed, gated, token_of}

abbrev admin_of : Result String ValidateTokenResponse → Gate String
admin_of (fails e) = stopped 401 "invalid token"
admin_of (returns resp) =
    if not resp.valid
    then stopped 401 "invalid token"
    else if not (resp.role == "admin")
    then stopped 403 "admin only"
    else passed resp.username

-- The name of the administrator; without a client the routes stand without the middleware, and there
-- is no name.
unfoldable pub admin_gate :
    Option (String → Result String ValidateTokenResponse) → String → Gate String
unfolding token_of
admin_gate none header = passed ""
admin_gate (some client) header =
    let token = token_of header in
    if token == "" then stopped 401 "unauthorized" else admin_of (client token)

module _ {D C R : Type 0} (libs : User.Libraries D C R) (now : ℕ) (users : User.Service D C R) where
  -- The call of the user service, while the connection works.
  abbrev pub user_client : String → Result String ValidateTokenResponse
  user_client token = returns (grpc_validate_token libs now token users)

  -- With the user service connected, a request is stopped and changes nothing, or its token is
  -- accepted as that of a user with the role of an administrator.
  pub admin_only :
      {S A : Type 0} (next : String → S → S × A) (header : String) (s : S)
      → let r = gated (admin_gate (some user_client) header) next s in
        ((status : ℕ) × (text : String) × (r ≡ (s, stopped status text)))
        ⊎ ((claims : Claims) × (validate_token libs.jwt libs.redis libs.hash now users.jwt_manager
                (token_of header)
              ≡ returns claims)
            × (claims.role ≡ "admin")
            × (r ≡ ((next claims.username s).0, passed (next claims.username s).1)))
  unfolding gated admin_gate
  admin_only next header s = elim (Bool-cases (token_of header == "")) [
    | inl empty ↦ inl (401, "unauthorized", ground (arith, empty))
    | inr given ↦ elim (grpc_validate_token_lem libs now (token_of header) users) [
      | inl (e, bad, invalid) ↦ inl (401, "invalid token", ground (arith, given, invalid))
      | inr (claims, good, valid, id, name, role) ↦
          elim (Bool-cases
            ((grpc_validate_token libs now (token_of header) users).role == "admin")) [
              | inl admin ↦ inr (
                claims,
                good,
                sym role ∙ (string_eq.decides _ _).0 admin,
                ground (arith, given, valid, name, admin),
              )
              | inr other ↦ inl (403, "admin only", ground (arith, given, valid, other))
            ]
    ]
  ]

-- Without the connection every request is passed on, whatever its header is.
admin_open :
    {S A : Type 0} (next : String → S → S × A) (header : String) (s : S)
    → gated (admin_gate none header) next s ≡ ((next "" s).0, passed (next "" s).1)
unfolding gated admin_gate
admin_open next header s = refl
