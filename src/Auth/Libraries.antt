-- ===== src/Auth/Libraries.antt =====
-- What pkg/auth/jwt.go relies on: the documented behaviour of golang-jwt and of Redis.
use online_game.Prelude.{ℕ, ◌+◌, ◌<◌, ◌≡◌, String, none, some, true}
use online_game.Prelude.Result.{Result, returns}
use online_game.Auth.{Claims, Method, hmac, JwtLibrary, RedisClient}

-- Of a key and claims: HMAC signs them, and a token so signed is parsed back before it expires.
pub record JwtLaws (lib : JwtLibrary) (secret : String) (claims : Claims) : Type 0 where
  pub signs : (token : String) × (lib.signed_string secret claims ≡ returns token)
  pub parses :
      (key : Method → Result String String) (now : ℕ) (token : String) (expiry : ℕ)
      → key hmac ≡ returns secret
      → lib.signed_string secret claims ≡ returns token
      → claims.expires_at ≡ some expiry
      → now < expiry
      → lib.parse_with_claims key now token
        ≡ returns (record { claims = some claims; valid = true })

-- A key that was set with a time to live is there until it ends, unless Redis cannot be asked.
pub record RedisLaws {R : Type 0} (redis : RedisClient R) : Type 0 where
  pub keeps :
      (r s : R) (now later : ℕ) (key value : String) (ttl n : ℕ)
      → redis.set_key r now key value ttl ≡ (s, none)
      → later < now + ttl
      → redis.exists_key s later key ≡ returns n
      → 0 < n
