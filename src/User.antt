-- ===== src/User.antt =====
-- internal/user/model.go, and what the user service calls: the database, bcrypt, JSON and a cache.
pub mod Accounts
pub mod Http
pub mod Grpc
pub mod Requests
mod Caching
mod Registration
mod Sessions
pub mod Samples
mod Tests
use online_game.Prelude.{ℕ, String, Option, List}
use online_game.Prelude.Result.{Result}
use online_game.Auth.{JwtLibrary, JwtManager, RedisClient}

-- The status is 0 (banned), 1 (normal) or 2 (admin).
pub record User : Type 0 where
  pub id : ℕ
  pub username : String
  pub password : String
  pub nickname : String
  pub email : String
  pub avatar : String
  pub status : ℕ
  pub created_at : ℕ
  pub updated_at : ℕ
  pub deleted_at : Option ℕ

pub record UserSession : Type 0 where
  pub id : ℕ
  pub user_id : ℕ
  pub token : String
  pub refresh_token : String
  pub expires_at : ℕ
  pub created_at : ℕ

pub record LoginRequest : Type 0 where
  pub username : String
  pub password : String

pub record RegisterRequest : Type 0 where
  pub username : String
  pub password : String
  pub email : String
  pub nickname : String

pub record LoginResponse : Type 0 where
  pub token : String
  pub expires_at : ℕ
  pub user : User

pub record UserInfo : Type 0 where
  pub id : ℕ
  pub username : String
  pub nickname : String
  pub avatar : String
  pub status : ℕ

-- An error of a query: `gorm.ErrRecordNotFound` or another.
pub data QueryError : Type 0 where
  record_not_found : QueryError
  db_error : String → QueryError

-- The queries of the service on a database with contents `D`. `create_user` returns the row with the
-- id and the times that were filled in; the error of `create_session` is ignored by the caller.
pub record Database (D : Type 0) : Type 0 where
  pub count_username : D → String → Result String ℕ
  pub count_email : D → String → Result String ℕ
  pub count_users : D → Result String ℕ
  pub first_by_username : D → String → Result QueryError User
  pub first_by_id : D → ℕ → Result QueryError User
  pub find_page : D → ℕ → ℕ → Result String (List User)
  pub create_user : D → User → D × Result String User
  pub create_session : D → UserSession → D

-- `GenerateFromPassword` with the salt that it draws; `CompareHashAndPassword`, none for a match.
pub record Bcrypt : Type 0 where
  pub generate_from_password : ℕ → String → Result String String
  pub compare_hash_and_password : String → String → Option String

-- `Get`, and `Set` with a time to live in nanoseconds, whose error is ignored.
pub record Cache (C : Type 0) : Type 0 where
  pub get_key : C → String → Result String String
  pub set_key : C → String → String → ℕ → C

-- All that is not code of the repository. `user_key` is
-- `fmt.Sprintf("user:%d", id)`.
pub record Libraries (D C R : Type 0) : Type 0 where
  pub db : Database D
  pub bcrypt : Bcrypt
  pub cache : Cache C
  pub marshal : User → Option String
  pub unmarshal : String → Option User
  pub user_key : ℕ → String
  pub jwt : JwtLibrary
  pub redis : RedisClient R
  pub hash : String → String

pub record Service (D C R : Type 0) : Type 0 where
  pub db : D
  pub jwt_manager : JwtManager R
  pub cache : Option C
