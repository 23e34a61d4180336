-- ===== src/User/Http.antt =====
-- internal/user/handler.go and internal/user/grpc.go: what is answered to a request. The binding of a
-- request (gin) gives the request or the text of its error; `D`, `C` and `R` are as in the service.
use Prim.Native.String.{len, slice}
use online_game.Prelude.{ℕ, ltb, ◌&&◌, String, nat_beq, if◌then◌else◌}
use online_game.Prelude.Equality.{◌==◌, string_eq}
use online_game.Prelude.Result.{Result, returns, fails}
use online_game.Prelude.Value.{str}
use online_game.Api.{Answer, error, created, success}
use online_game.Api.Error.{AppError, app, named, with_data, err_bad_request, err_unauthorized}
use online_game.Auth.{Claims}
use online_game.User.{
  User, UserInfo, LoginRequest, RegisterRequest, LoginResponse, Libraries, Service,
}
use online_game.User.Accounts.{register, login, get_user, get_user_info, validate_user_token}

-- What is written as `data`: nothing, or one of the service's values.
pub data Body : Type 0 where
  no_data : Body
  user : User → Body
  login_response : LoginResponse → Body
  info : UserInfo → Body

-- `api.Error` with nothing as data.
abbrev refusal : AppError → Answer Body
unfolding error
refusal e =
    let answer = error (app e) in
    record {
      status = answer.status;
      body = record { code = answer.body.code; message = answer.body.message; «data» = no_data };
    }

abbrev bad_request : String → Answer Body
unfolding with_data named error
bad_request e = refusal (with_data (str e) (named err_bad_request))

-- The answer of `AbortWithStatusJSON` in the middleware.
abbrev unauthorized : String → Answer Body
unauthorized message = record {
  status = 401;
  body = record { code = 40100; message = message; «data» = no_data };
}

-- The value of the header `Authorization`, empty where it is missing. Lengths are in bytes.
unfoldable pub extract_token : String → String
extract_token header =
    if ltb 7 (len header) && slice header 0 7 == "Bearer " then slice header 7 (len header) else ""

module _ {D C R : Type 0} (libs : Libraries D C R) where
  abbrev answered :
      {A : Type 0}
      → (A → Answer Body)
      → Service D C R × Result AppError A
      → Service D C R × Answer Body
  unfolding error
  answered f (s, returns a) = (s, f a)
  answered f (s, fails e) = (s, refusal e)

  unfoldable pub handle_register :
      ℕ → Result String RegisterRequest → Service D C R → Service D C R × Answer Body
  unfolding error with_data named register created
  handle_register salt (fails e) s = (s, bad_request e)
  handle_register salt (returns req) s = answered (λ u. created (user u)) (register libs salt req s)

  unfoldable pub handle_login :
      ℕ → ℕ → Result String LoginRequest → Service D C R → Service D C R × Answer Body
  unfolding error with_data named login success
  handle_login now issued (fails e) s = (s, bad_request e)
  handle_login now issued (returns req) s =
      answered (λ r. success (login_response r)) (login libs now issued req s)

  -- `user_id` is what the middleware put into the context, 0 for nothing.
  unfoldable pub handle_get_current_user : ℕ → Service D C R → Service D C R × Answer Body
  unfolding error named get_user success
  handle_get_current_user user_id s =
      if nat_beq user_id 0
      then (s, refusal (named err_unauthorized))
      else answered (λ u. success (user u)) (get_user libs user_id s)

  unfoldable pub handle_get_user : Result String ℕ → Service D C R → Service D C R × Answer Body
  unfolding error with_data named get_user_info success
  handle_get_user (fails e) s = (s, bad_request e)
  handle_get_user (returns id) s = answered (λ i. success (info i)) (get_user_info libs id s)

  abbrev pass_on :
      (Claims → Service D C R → Service D C R × Answer Body)
      → Service D C R
      → Result AppError Claims
      → Service D C R × Answer Body
  pass_on next s (returns claims) = next claims s
  pass_on next s (fails e) = (s, unauthorized "Token无效或已过期")

  -- `authMiddleware` before a handler, which gets the claims through the context.
  unfoldable pub auth_middleware :
      ℕ
      → String
      → (Claims → Service D C R → Service D C R × Answer Body)
      → Service D C R
      → Service D C R × Answer Body
  unfolding extract_token validate_user_token
  auth_middleware now header next s =
      let token = extract_token header in
      if token == ""
      then (s, unauthorized "缺少认证Token")
      else pass_on next s (validate_user_token libs now token s)

  -- `GET /users/me` behind the middleware.
  unfoldable pub users_me : ℕ → String → Service D C R → Service D C R × Answer Body
  unfolding auth_middleware handle_get_current_user
  users_me now header s =
      auth_middleware now header (λ claims. handle_get_current_user claims.user_id) s
