-- ===== src/Api/Error.antt =====
-- pkg/apperror/app_error.go: the errors of the services and their codes.
use online_game.Prelude.{ℕ, ◌/◌, String, Bool, true, false, [], ◌∷◌}
use online_game.Prelude.Text.{concat}
use online_game.Prelude.Value.{Value, nil, str}

-- `Data`: nil or some value.
pub record AppError : Type 0 where
  pub code : ℕ
  pub message : String
  pub «data» : Value

-- An `error`: one of the type above, or of another type, of which only its text is used.
pub data GoError : Type 0 where
  app : AppError → GoError
  plain : String → GoError

-- `fmt.Sprintf` with `%d` and with `%v` is the caller's.
error_text : (ℕ → String) → (Value → String) → Value → AppError → String
error_text number any nil e = concat ("[" ∷ number e.code ∷ "] " ∷ e.message ∷ [])
error_text number any details e =
    concat ("[" ∷ number e.code ∷ "] " ∷ e.message ∷ ": " ∷ any details ∷ [])

unfoldable pub error_of : (ℕ → String) → (Value → String) → AppError → String
unfolding error_text
error_of number any e = error_text number any e.«data» e

unfoldable pub http_status : AppError → ℕ
http_status e = e.code / 100

unfoldable pub with_data : Value → AppError → AppError
with_data details e = record { code = e.code; message = e.message; «data» = details }

unfoldable pub with_message : String → AppError → AppError
with_message msg e = record { code = e.code; message = msg; «data» = e.«data» }

abbrev pub new : ℕ → String → AppError
new code message = record { code = code; message = message; «data» = nil }

-- The errors that the package names.
pub data Named : Type 0 where
  err_bad_request err_unauthorized err_forbidden err_not_found : Named
  err_user_not_found err_user_exists err_invalid_password err_invalid_token : Named
  err_game_not_found err_game_not_ready err_invalid_package err_script_error : Named
  err_room_not_found err_room_full err_room_not_joinable err_not_room_owner : Named
  err_game_running err_internal_server err_database_error err_cache_error : Named

unfoldable pub named : Named → AppError
named err_bad_request = new 40000 "请求参数错误"
named err_unauthorized = new 40100 "未授权"
named err_forbidden = new 40300 "禁止访问"
named err_not_found = new 40400 "资源不存在"
named err_user_not_found = new 41401 "用户不存在"
named err_user_exists = new 41402 "用户已存在"
named err_invalid_password = new 41403 "密码错误"
named err_invalid_token = new 41404 "无效的Token"
named err_game_not_found = new 44401 "游戏不存在"
named err_game_not_ready = new 44402 "游戏未就绪"
named err_invalid_package = new 44001 "游戏包格式无效"
named err_script_error = new 44002 "脚本执行错误"
named err_room_not_found = new 46401 "房间不存在"
named err_room_full = new 46901 "房间已满"
named err_room_not_joinable = new 46402 "房间不可加入"
named err_not_room_owner = new 46403 "非房主操作"
named err_game_running = new 46404 "游戏进行中"
named err_internal_server = new 50000 "服务器内部错误"
named err_database_error = new 50001 "数据库错误"
named err_cache_error = new 50002 "缓存错误"

unfoldable pub is_app_error : GoError → Bool
is_app_error (app e) = true
is_app_error (plain text) = false

unfoldable pub get_app_error : GoError → AppError
unfolding with_data named
get_app_error (app e) = e
get_app_error (plain text) = with_data (str text) (named err_internal_server)
