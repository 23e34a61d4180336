-- ===== src/User/Grpc.antt =====
-- internal/user/grpc.go. An id is the same 64 bits as `uint` and as `int64`.
use online_game.Prelude.{ℕ, ◌%◌, ◌^◌, String, Bool, true, false}
use online_game.Prelude.Result.{Result, returns, fails}
use online_game.Api.Error.{AppError}
use online_game.Auth.{Claims}
use online_game.User.{UserInfo, Libraries, Service}
use online_game.User.Accounts.{validate_user_token, get_user_info}

-- The messages of proto/user, with the fields that are used.
pub record ValidateTokenResponse : Type 0 where
  pub valid : Bool
  pub user_id : ℕ
  pub username : String
  pub role : String

pub record UserResponse : Type 0 where
  pub id : ℕ
  pub username : String
  pub nickname : String
  pub avatar : String
  pub status : ℕ

abbrev response_for : Result AppError Claims → ValidateTokenResponse
response_for (fails e) = record { valid = false; user_id = 0; username = ""; role = "" }
response_for (returns claims) = record {
  valid = true;
  user_id = claims.user_id;
  username = claims.username;
  role = claims.role;
}

-- `int32(user.Status)` keeps the lower bits.
abbrev user_response : UserInfo → UserResponse
user_response user = record {
  id = user.id;
  username = user.username;
  nickname = user.nickname;
  avatar = user.avatar;
  status = user.status % 2 ^ 32;
}

module _ {D C R : Type 0} (libs : Libraries D C R) where
  abbrev responded :
      Service D C R × Result AppError UserInfo → Service D C R × Result AppError UserResponse
  responded (s, returns user) = (s, returns (user_response user))
  responded (s, fails e) = (s, fails e)

  -- The error of this call is always nil.
  unfoldable pub grpc_validate_token : ℕ → String → Service D C R → ValidateTokenResponse
  unfolding validate_user_token
  grpc_validate_token now token s = response_for (validate_user_token libs now token s)

  unfoldable pub grpc_get_user : ℕ → Service D C R → Service D C R × Result AppError UserResponse
  unfolding get_user_info
  grpc_get_user user_id s = responded (get_user_info libs user_id s)
