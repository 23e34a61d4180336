-- ===== src/Auth.antt =====
-- pkg/auth/jwt.go: tokens for users, and their revocation in Redis. The libraries for tokens and for
-- Redis and the hash are parameters; what is relied on of them is in Auth/Libraries.
pub mod Libraries
pub mod Tokens
mod Tests
use online_game.Prelude.{
  ℕ, ◌+◌, ◌-◌, String, Bool, true, false, Option, none, some, [], ◌∷◌, ltb, leb, if◌then◌else◌,
}
use online_game.Prelude.Result.{Result, returns, fails}
use online_game.Prelude.Text.{concat}

-- Times are nanoseconds since an epoch. `ExpiresAt` is a pointer, nil where a token has no such
-- claim.
pub record Claims : Type 0 where
  pub user_id : ℕ
  pub username : String
  pub role : String
  pub expires_at : Option ℕ
  pub issued_at : Option ℕ
  pub issuer : String

-- The signing method that a token names: `*jwt.SigningMethodHMAC` or another.
pub data Method : Type 0 where
  hmac : Method
  other : String → Method

-- A parsed token. `claims` is none where the claims have another type than `*Claims`.
pub record Token : Type 0 where
  pub claims : Option Claims
  pub valid : Bool

-- `jwt.NewNumericDate`, `SignedString` of a token with method HS256, and `ParseWithClaims`.
pub record JwtLibrary : Type 0 where
  pub numeric_date : ℕ → ℕ
  pub signed_string : String → Claims → Result String String
  pub parse_with_claims : (Method → Result String String) → ℕ → String → Result String Token

-- `Exists` and `Set` at a time, for a store with contents `R`.
pub record RedisClient (R : Type 0) : Type 0 where
  pub exists_key : R → ℕ → String → Result String ℕ
  pub set_key : R → ℕ → String → String → ℕ → R × Option String

-- The expiration is a positive duration.
pub record JwtManager (R : Type 0) : Type 0 where
  pub secret : String
  pub expiration : ℕ
  pub redis : Option R

-- What `BlacklistToken` does: it returns nil or an error, or panics on a nil pointer.
pub data Blacklisting : Type 0 where
  blacklisted : Blacklisting
  refused : String → Blacklisting
  panics : Blacklisting

abbrev pub default_secret : String
default_secret = "online-game-jwt-secret-change-in-prod"

unfoldable pub new_jwt_manager : {R : Type 0} → String → ℕ → JwtManager R
new_jwt_manager secret expiration = record {
  secret = secret;
  expiration = expiration;
  redis = none;
}

unfoldable pub set_redis_client : {R : Type 0} → Option R → JwtManager R → JwtManager R
set_redis_client client m = record m { redis = client }

-- The key function that `ValidateToken` gives to the parser.
abbrev pub key_for : String → Method → Result String String
key_for secret hmac = returns secret
key_for secret (other alg) = fails (concat ("unexpected signing method: " ∷ alg ∷ []))

module _ {R : Type 0} (lib : JwtLibrary) (redis : RedisClient R) (hash : String → String) where
  abbrev pub claims_for : ℕ → ℕ → JwtManager R → ℕ → String → String → Claims
  claims_for now issued m user_id username role = record {
    user_id = user_id;
    username = username;
    role = role;
    expires_at = some (lib.numeric_date (now + m.expiration));
    issued_at = some (lib.numeric_date issued);
    issuer = "online-game";
  }

  abbrev with_expiry : ℕ → Result String String → Result String (String × ℕ)
  with_expiry expires_at (returns token) = returns (token, expires_at)
  with_expiry expires_at (fails e) = fails (concat ("sign token: " ∷ e ∷ []))

  -- The clock is read twice: for the expiry and for the time of issue.
  unfoldable pub generate_token :
      ℕ → ℕ → JwtManager R → ℕ → String → String → Result String (String × ℕ)
  generate_token now issued m user_id username role =
      with_expiry (now + m.expiration)
        (lib.signed_string m.secret (claims_for now issued m user_id username role))

  -- `hash` is the hexadecimal SHA-256 of a text.
  unfoldable pub token_blacklist_key : String → String
  token_blacklist_key token = concat ("jwt_blacklist:" ∷ hash token ∷ [])

  abbrev pub is_positive : Result String ℕ → Result String Bool
  is_positive (returns n) = returns (ltb 0 n)
  is_positive (fails e) = fails e

  unfoldable pub is_blacklisted : ℕ → JwtManager R → String → Result String Bool
  unfolding token_blacklist_key
  is_blacklisted now m token = elim m.redis [
    | none ↦ returns false
    | some r ↦ is_positive (redis.exists_key r now (token_blacklist_key token))
  ]

  abbrev claims_of : Option Claims → Bool → Result String Claims
  claims_of none valid = fails "invalid token"
  claims_of (some claims) true = returns claims
  claims_of (some claims) false = fails "invalid token"

  abbrev of_parsed : Result String Token → Result String Claims
  of_parsed (fails e) = fails (concat ("parse token: " ∷ e ∷ []))
  of_parsed (returns token) = claims_of token.claims token.valid

  -- `ValidateToken` after the check of the blacklist.
  unfoldable pub parse_token : ℕ → JwtManager R → String → Result String Claims
  parse_token now m token = of_parsed (lib.parse_with_claims (key_for m.secret) now token)

  abbrev unless_revoked : Result String Bool → Result String Claims → Result String Claims
  unless_revoked (returns true) parsed = fails "token has been revoked"
  unless_revoked (returns false) parsed = parsed
  unless_revoked (fails e) parsed = parsed

  -- Without Redis `IsBlacklisted` would answer false as well.
  unfoldable pub validate_token : ℕ → JwtManager R → String → Result String Claims
  unfolding parse_token is_blacklisted
  validate_token now m token = elim m.redis [
    | none ↦ parse_token now m token
    | some r ↦ unless_revoked (is_blacklisted now m token) (parse_token now m token)
  ]

  abbrev stored : R × Option String → JwtManager R → JwtManager R × Blacklisting
  stored (r, none) m = (record m { redis = some r }, blacklisted)
  stored (r, some e) m = (record m { redis = some r }, refused e)

  abbrev blacklist_until : Option ℕ → ℕ → String → R → JwtManager R → JwtManager R × Blacklisting
  unfolding token_blacklist_key
  blacklist_until none now token r m = (m, panics)
  blacklist_until (some expiry) now token r m =
      if leb expiry now
      then (m, blacklisted)
      else stored (redis.set_key r now (token_blacklist_key token) "1" (expiry - now)) m

  abbrev blacklist_valid :
      Result String Claims → ℕ → String → R → JwtManager R → JwtManager R × Blacklisting
  unfolding token_blacklist_key
  blacklist_valid (fails e) now token r m = (m, refused e)
  blacklist_valid (returns claims) now token r m = blacklist_until claims.expires_at now token r m

  unfoldable pub blacklist_token : ℕ → JwtManager R → String → JwtManager R × Blacklisting
  unfolding validate_token token_blacklist_key
  blacklist_token now m token = elim m.redis [
    | none ↦ (m, blacklisted)
    | some r ↦ blacklist_valid (validate_token now m token) now token r m
  ]
