-- ===== src/User/Accounts.antt =====
-- internal/user/service.go.
use online_game.Prelude.{ℕ, ◌-◌, ◌*◌, String, Option, none, some, List, ltb, nat_beq, if◌then◌else◌}
use online_game.Prelude.Equality.{◌==◌, string_eq}
use online_game.Prelude.Result.{Result, returns, fails}
use online_game.Prelude.Value.{str}
use online_game.Api.Error.{
  AppError, named, with_data, with_message, err_user_exists, err_internal_server,
  err_database_error, err_user_not_found, err_invalid_password, err_forbidden, err_invalid_token,
}
use online_game.Auth.{Claims, JwtManager, generate_token, validate_token}
use online_game.User.{
  User, UserSession, LoginRequest, RegisterRequest, LoginResponse, UserInfo, QueryError,
  record_not_found, db_error, Libraries, Service,
}

-- The variable that `Count` writes to: it keeps its value 0 when the query fails.
abbrev pub counted : Result String ℕ → ℕ
counted (returns n) = n
counted (fails e) = 0

abbrev pub internal_error : String → AppError
unfolding with_data named
internal_error e = with_data (str e) (named err_internal_server)

abbrev pub database_error : String → AppError
unfolding with_data named
database_error e = with_data (str e) (named err_database_error)

abbrev pub query_error : QueryError → AppError
unfolding named with_data
query_error record_not_found = named err_user_not_found
query_error (db_error e) = database_error e

-- The row that `Register` creates; the database fills in the rest.
abbrev pub new_user : RegisterRequest → String → User
new_user req hashed = record {
  id = 0;
  username = req.username;
  password = hashed;
  nickname = if req.nickname == "" then req.username else req.nickname;
  email = req.email;
  avatar = "";
  status = 1;
  created_at = 0;
  updated_at = 0;
  deleted_at = none;
}

abbrev pub role_of : User → String
role_of user = if nat_beq user.status 2 then "admin" else "player"

abbrev pub new_session : ℕ → String → ℕ → UserSession
new_session user_id token expires_at = record {
  id = 0;
  user_id = user_id;
  token = token;
  refresh_token = "";
  expires_at = expires_at;
  created_at = 0;
}

abbrev pub user_info : User → UserInfo
user_info user = record {
  id = user.id;
  username = user.username;
  nickname = user.nickname;
  avatar = user.avatar;
  status = user.status;
}

module _ {D C R : Type 0} where
  unfoldable pub new_service : D → JwtManager R → Service D C R
  new_service db jwt_manager = record { db = db; jwt_manager = jwt_manager; cache = none }

  unfoldable pub set_cache : Option C → Service D C R → Service D C R
  set_cache cache s = record s { cache = cache }

  module _ (libs : Libraries D C R) where
    unfoldable pub created_user :
        Service D C R → D × Result String User → Service D C R × Result AppError User
    unfolding with_data named
    created_user s (d, returns user) = (record s { db = d }, returns user)
    created_user s (d, fails e) = (record s { db = d }, fails (database_error e))

    unfoldable pub create_hashed :
        RegisterRequest
        → Service D C R
        → Result String String
        → Service D C R × Result AppError User
    unfolding with_data named created_user
    create_hashed req s (fails e) = (s, fails (internal_error e))
    create_hashed req s (returns hashed) =
        created_user s (libs.db.create_user s.db (new_user req hashed))

    unfoldable pub register :
        ℕ → RegisterRequest → Service D C R → Service D C R × Result AppError User
    unfolding with_data with_message named create_hashed
    register salt req s =
        if ltb 0 (counted (libs.db.count_username s.db req.username))
        then (s, fails (with_message "用户名已存在" (named err_user_exists)))
        else if ltb 0 (counted (libs.db.count_email s.db req.email))
        then (s, fails (with_message "邮箱已被注册" (named err_user_exists)))
        else create_hashed req s (libs.bcrypt.generate_from_password salt req.password)

    unfoldable pub with_token :
        User
        → Service D C R
        → Result String (String × ℕ)
        → Service D C R × Result AppError LoginResponse
    unfolding with_data named
    with_token user s (fails e) = (s, fails (internal_error e))
    with_token user s (returns (token, expires_at)) = (
      record s { db = libs.db.create_session s.db (new_session user.id token expires_at) },
      returns (record { token = token; expires_at = expires_at; user = user }),
    )

    -- `Login` once the password has been compared.
    unfoldable pub admit :
        ℕ → ℕ → User → Service D C R → Option String → Service D C R × Result AppError LoginResponse
    unfolding with_data with_message named generate_token with_token
    admit now issued user s (some e) = (s, fails (named err_invalid_password))
    admit now issued user s none =
        if nat_beq user.status 0
        then (s, fails (with_message "账号已被封禁" (named err_forbidden)))
        else with_token user s (
            generate_token libs.jwt libs.redis libs.hash now issued s.jwt_manager user.id
              user.username (role_of user))

    unfoldable pub login_found :
        ℕ
        → ℕ
        → LoginRequest
        → Service D C R
        → Result QueryError User
        → Service D C R × Result AppError LoginResponse
    unfolding with_data with_message named generate_token admit
    login_found now issued req s (fails e) = (s, fails (query_error e))
    login_found now issued req s (returns user) =
        admit now issued user s (libs.bcrypt.compare_hash_and_password user.password req.password)

    unfoldable pub login :
        ℕ → ℕ → LoginRequest → Service D C R → Service D C R × Result AppError LoginResponse
    unfolding with_data with_message named generate_token login_found
    login now issued req s =
        login_found now issued req s (libs.db.first_by_username s.db req.username)

    abbrev pub decoded : Result String String → Option User
    decoded (returns text) = libs.unmarshal text
    decoded (fails e) = none

    -- What the cache has for a user: none without a cache, on an error and for another text.
    unfoldable pub cached_user : ℕ → Option C → Option User
    cached_user id none = none
    cached_user id (some c) = decoded (libs.cache.get_key c (libs.user_key id))

    abbrev store_text : ℕ → Option String → C → C
    store_text id none c = c
    store_text id (some text) c = libs.cache.set_key c (libs.user_key id) text 1800000000000

    unfoldable pub store_user : ℕ → User → Option C → Option C
    store_user id user none = none
    store_user id user (some c) = some (store_text id (libs.marshal user) c)

    abbrev read_user :
        ℕ → Service D C R → Result QueryError User → Service D C R × Result AppError User
    unfolding store_user with_data named
    read_user id s (fails e) = (s, fails (query_error e))
    read_user id s (returns user) = (record s { cache = store_user id user s.cache }, returns user)

    unfoldable pub get_user : ℕ → Service D C R → Service D C R × Result AppError User
    unfolding cached_user store_user with_data named
    get_user id s = elim (cached_user id s.cache) [
      | some user ↦ (s, returns user)
      | none ↦ read_user id s (libs.db.first_by_id s.db id)
    ]

    unfoldable pub validate_user_token : ℕ → String → Service D C R → Result AppError Claims
    unfolding validate_token named
    validate_user_token now token s =
        elim (validate_token libs.jwt libs.redis libs.hash now s.jwt_manager token) [
          | returns claims ↦ returns claims
          | fails e ↦ fails (named err_invalid_token)
        ]

    abbrev listed : ℕ → Result String (List User) → Result AppError (List User × ℕ)
    unfolding with_data named
    listed total (returns users) = returns (users, total)
    listed total (fails e) = fails (database_error e)

    -- A page below 1 gives a negative offset in the source, which the database layer ignores.
    unfoldable pub list_users : ℕ → ℕ → Service D C R → Result AppError (List User × ℕ)
    unfolding with_data named
    list_users page page_size s =
        listed (counted (libs.db.count_users s.db))
          (libs.db.find_page s.db ((page - 1) * page_size) page_size)

    abbrev info_of : Service D C R × Result AppError User → Service D C R × Result AppError UserInfo
    info_of (s, returns user) = (s, returns (user_info user))
    info_of (s, fails e) = (s, fails e)

    unfoldable pub get_user_info : ℕ → Service D C R → Service D C R × Result AppError UserInfo
    unfolding get_user
    get_user_info id s = info_of (get_user id s)
