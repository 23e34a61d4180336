-- ===== src/Auth/Tests.antt =====
-- A small library for tokens and a small Redis, and the theorems with them.
use online_game.Prelude.{
  ℕ, ◌+◌, ◌<◌, ◌≡◌, refl, String, true, Option, none, some, [], ◌∷◌, arith, ltb, ◌&&◌,
  if◌then◌else◌,
}
use online_game.Prelude.Dict.{Dict, lookup, insert, lookup-insert}
use online_game.Prelude.Equality.{◌==◌, string_eq, beq_refl}
use online_game.Prelude.Text.{concat}
use online_game.Prelude.Result.{Result, returns, fails}
use online_game.Auth.{
  Claims, Token, JwtLibrary, RedisClient, JwtManager, hmac, validate_token, is_blacklisted,
  parse_token, blacklist_token, blacklisted, token_blacklist_key,
}
use online_game.Auth.Libraries.{JwtLaws, RedisLaws}
use online_game.Auth.Tokens

-- Alice's token, for a key, and when it ends.
abbrev alice : Claims
alice = record {
  user_id = 7;
  username = "alice";
  role = "player";
  expires_at = some 110;
  issued_at = some 10;
  issuer = "online-game";
}

abbrev open_with : Result String String → ℕ → String → Result String Token
open_with (fails e) now token = fails e
open_with (returns secret) now token =
    if ltb now 110 && token == concat (secret ∷ ".alice" ∷ [])
    then returns (record { claims = some alice; valid = true })
    else fails "bad token"

abbrev tokens : JwtLibrary
tokens = record {
  numeric_date = λ t. t;
  signed_string = λ secret claims. returns (concat (secret ∷ "." ∷ claims.username ∷ []));
  parse_with_claims = λ key now token. open_with (key hmac) now token;
}

-- The keys with the times at which they end.
abbrev found_until : Option ℕ → ℕ → ℕ
found_until none now = 0
found_until (some expiry) now = if ltb now expiry then 1 else 0

abbrev small_redis : RedisClient (Dict String ℕ)
small_redis = record {
  exists_key = λ r now key. returns (found_until (lookup key r) now);
  set_key = λ r now key value ttl. (insert key (now + ttl) r, none);
}

abbrev same_hash : String → String
same_hash s = s

abbrev manager : JwtManager (Dict String ℕ)
manager = record { secret = "k"; expiration = 100; redis = some [] }

small_redis-Laws : RedisLaws small_redis
small_redis-Laws = record {
  keeps = λ r s now later key value ttl n set early found.
      ground (arith, lookup-insert key key (now + ttl) r, beq_refl key);
}

alice-opens :
    (answer : Result String String) (now : ℕ) (token : String)
    → answer ≡ returns "k"
    → token ≡ "k.alice"
    → now < 110
    → open_with answer now token ≡ returns (record { claims = some alice; valid = true })
alice-opens answer now token k same fresh = rw (k, same) (ground arith)

tokens-Laws : JwtLaws tokens "k" alice
tokens-Laws = record {
  signs = ("k.alice", refl);
  parses = λ key now token expiry k signed exp fresh.
      alice-opens (key hmac) now token k (ground arith) (ground arith);
}

validate-blacklist_example :
    (blacklist_token tokens small_redis same_hash 20 manager "k.alice"
      ≡ (record manager { redis = some (("jwt_blacklist:k.alice", 110) ∷ []) }, blacklisted))
    × (validate_token tokens small_redis same_hash 50
          (record manager { redis = some (("jwt_blacklist:k.alice", 110) ∷ []) })
          "k.alice"
        ≡ fails "token has been revoked")
unfolding validate_token is_blacklisted token_blacklist_key parse_token lookup insert
validate-blacklist_example =
    Tokens.validate-blacklist tokens small_redis same_hash small_redis-Laws 20 50 110 manager []
      (("jwt_blacklist:k.alice", 110) ∷ []) "k.alice" alice true refl refl refl (omega arith) refl
      (omega arith) refl
