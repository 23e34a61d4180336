-- ===== src/User/Samples.antt =====
-- A small database and small libraries, for the tests.
use online_game.Prelude.{
  ℕ, ◌<◌, ◌≡◌, refl, arith, zero, suc, String, true, Option, none, some, List, [], ◌∷◌, ltb, ◌&&◌,
  nat_beq, length, if◌then◌else◌,
}
use online_game.Prelude.Dict.{Dict, lookup, insert}
use online_game.Prelude.Equality.{◌==◌, string_eq}
use online_game.Prelude.Result.{Result, returns, fails}
use online_game.Prelude.Text.{concat}
use online_game.Auth.Libraries.{JwtLaws}
use online_game.Auth.{Claims, Token, JwtLibrary, RedisClient, hmac}
use online_game.User.{
  User, RegisterRequest, LoginRequest, QueryError, record_not_found, Database, Bcrypt, Cache,
  Libraries, Service,
}

-- The rows, the newest first.
abbrev pub Rows : Type 0
Rows = List User

abbrev pub named_row : String → Rows → Result QueryError User
named_row name [] = fails record_not_found
named_row name (u ∷ rows) = if u.username == name then returns u else named_row name rows

abbrev pub row_of : ℕ → Rows → Result QueryError User
row_of id [] = fails record_not_found
row_of id (u ∷ rows) = if nat_beq u.id id then returns u else row_of id rows

abbrev pub found_rows : Result QueryError User → Result String ℕ
found_rows (returns u) = returns 1
found_rows (fails e) = returns 0

abbrev pub inserted : Rows → User → User
inserted rows u = record u { id = suc (length rows); created_at = 5; updated_at = 5 }

abbrev pub small_db : Database Rows
small_db = record {
  count_username = λ rows name. found_rows (named_row name rows);
  count_email = λ rows email. returns 0;
  count_users = λ rows. returns (length rows);
  first_by_username = λ rows name. named_row name rows;
  first_by_id = λ rows id. row_of id rows;
  find_page = λ rows offset limit. returns rows;
  create_user = λ rows u. (inserted rows u ∷ rows, returns (inserted rows u));
  create_session = λ rows session. rows;
}

abbrev pub hash_of : String → String
hash_of password = concat ("hash of " ∷ password ∷ [])

abbrev pub small_bcrypt : Bcrypt
small_bcrypt = record {
  generate_from_password = λ salt password. returns (hash_of password);
  compare_hash_and_password =
      λ hashed password. if hashed == hash_of password then none else some "mismatch";
}

abbrev pub text_of : Option String → Result String String
text_of none = fails "nil"
text_of (some text) = returns text

abbrev pub small_cache : Cache (Dict String String)
small_cache = record {
  get_key = λ c key. text_of (lookup key c);
  set_key = λ c key text ttl. insert key text c;
}

abbrev pub unary_key : ℕ → String
unary_key zero = String.[]
unary_key (suc n) = String.◌∷◌ "u" (unary_key n)

abbrev pub ann : User
ann = record {
  id = 1;
  username = "ann";
  password = "hash of secret";
  nickname = "ann";
  email = "ann@x.org";
  avatar = "";
  status = 1;
  created_at = 5;
  updated_at = 5;
  deleted_at = none;
}

abbrev pub ann_claims : Claims
ann_claims = record {
  user_id = 1;
  username = "ann";
  role = "player";
  expires_at = some 110;
  issued_at = some 10;
  issuer = "online-game";
}

abbrev pub open_with : Result String String → ℕ → String → Result String Token
open_with (fails e) now token = fails e
open_with (returns secret) now token =
    if ltb now 110 && token == concat (secret ∷ ".ann" ∷ [])
    then returns (record { claims = some ann_claims; valid = true })
    else fails "bad token"

abbrev pub tokens : JwtLibrary
tokens = record {
  numeric_date = λ t. t;
  signed_string = λ secret claims. returns (concat (secret ∷ "." ∷ claims.username ∷ []));
  parse_with_claims = λ key now token. open_with (key hmac) now token;
}

abbrev pub no_redis : RedisClient ℕ
no_redis = record {
  exists_key = λ r now key. fails "down";
  set_key = λ r now key v ttl. (r, some "down");
}

abbrev pub libs : Libraries Rows (Dict String String) ℕ
libs = record {
  db = small_db;
  bcrypt = small_bcrypt;
  cache = small_cache;
  marshal = λ u. some u.username;
  unmarshal = λ text. if text == "ann" then some (record ann { password = "" }) else none;
  user_key = unary_key;
  jwt = tokens;
  redis = no_redis;
  hash = λ s. s;
}

abbrev pub service : Rows → Service Rows (Dict String String) ℕ
service rows = record {
  db = rows;
  jwt_manager = record { secret = "k"; expiration = 100; redis = none };
  cache = some [];
}

abbrev pub ann_request : RegisterRequest
ann_request = record { username = "ann"; password = "secret"; email = "ann@x.org"; nickname = "" }

abbrev pub ann_login : LoginRequest
ann_login = record { username = "ann"; password = "secret" }

alice-opens :
    (answer : Result String String) (now : ℕ) (token : String)
    → answer ≡ returns "k"
    → token ≡ "k.ann"
    → now < 110
    → open_with answer now token ≡ returns (record { claims = some ann_claims; valid = true })
alice-opens answer now token k same fresh = rw (k, same) (ground arith)

pub tokens-Laws : JwtLaws tokens "k" ann_claims
tokens-Laws = record {
  signs = ("k.ann", refl);
  parses = λ key now token expiry k signed exp fresh.
      alice-opens (key hmac) now token k (ground arith) (ground arith);
}
