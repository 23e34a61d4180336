-- ===== src/Auth/Tokens.antt =====
-- Tokens: a round trip, their revocation, and what a check answers.
use online_game.Prelude.{
  ℕ, ◌+◌, ◌-◌, ◌<◌, ◌≡◌, refl, ◌⊎◌, String, Bool, true, false, none, some, arith,
}
use online_game.Prelude.Result.{Result, returns, fails}
use online_game.Auth.{
  Claims, JwtLibrary, RedisClient, JwtManager, blacklisted, claims_for, key_for, generate_token,
  is_blacklisted, parse_token, validate_token, blacklist_token, token_blacklist_key, is_positive,
}
use online_game.Auth.Libraries.{JwtLaws, RedisLaws}

module _ {R : Type 0} (lib : JwtLibrary) (redis : RedisClient R) (hash : String → String) where
  -- The answer of a check: "token has been revoked" if Redis is there and finds the token revoked;
  -- otherwise what the token itself says, also when Redis answers with an error.
  validate_token_cases :
      (now : ℕ) (m : JwtManager R) (token : String)
      → (is_blacklisted lib redis hash now m token ≡ returns true)
          × (validate_token lib redis hash now m token ≡ fails "token has been revoked")
        ⊎ (is_blacklisted lib redis hash now m token ≡ returns false)
          × (validate_token lib redis hash now m token ≡ parse_token lib redis hash now m token)
        ⊎ (e : String) × (is_blacklisted lib redis hash now m token ≡ fails e)
          × (validate_token lib redis hash now m token ≡ parse_token lib redis hash now m token)
  unfolding validate_token is_blacklisted
  validate_token_cases now m token = ground arith

  parse_token-signed :
      (now issued later : ℕ) (m : JwtManager R) (user_id : ℕ) (username role token : String)
      (laws : JwtLaws lib m.secret (claims_for lib redis hash now issued m user_id username role))
      → later < lib.numeric_date (now + m.expiration)
      → lib.signed_string m.secret (claims_for lib redis hash now issued m user_id username role)
        ≡ returns token
      → parse_token lib redis hash later m token
        ≡ returns (claims_for lib redis hash now issued m user_id username role)
  unfolding parse_token
  parse_token-signed now issued later m user_id username role token laws fresh signed =
      rw
        (laws.parses (key_for m.secret) later token (lib.numeric_date (now + m.expiration)) refl
          signed refl fresh)
        refl

  parse_token-secret :
      (now : ℕ) (m n : JwtManager R) (token : String)
      → n.secret ≡ m.secret
      → parse_token lib redis hash now n token ≡ parse_token lib redis hash now m token
  unfolding parse_token
  parse_token-secret now m n token same = rw same refl

  -- A token of one manager is accepted by another that has its secret.
  pub validate-generate_shared :
      (now issued later : ℕ) (m n : JwtManager R) (user_id : ℕ) (username role : String)
      (laws : JwtLaws lib m.secret (claims_for lib redis hash now issued m user_id username role))
      → n.secret ≡ m.secret
      → later < lib.numeric_date (now + m.expiration)
      → (token : String) × (generate_token lib redis hash now issued m user_id username role
          ≡ returns (token, now + m.expiration))
        × ((validate_token lib redis hash later n token
              ≡ returns (claims_for lib redis hash now issued m user_id username role))
            ⊎ (is_blacklisted lib redis hash later n token ≡ returns true))
  unfolding generate_token
  validate-generate_shared now issued later m n user_id username role laws same fresh =
      let signed = laws.signs in
      (
        signed.0,
        rw signed.1 refl,
        grind (
          arith,
          validate_token_cases later n signed.0,
          parse_token-secret later m n signed.0 same,
          parse_token-signed now issued later m user_id username role signed.0 laws fresh signed.1,
        ),
      )

  -- A user can be given a token, and until the manager's expiration has passed it is accepted with
  -- the user's id, name and role, unless Redis finds it revoked.
  pub validate-generate :
      (now issued later : ℕ) (m : JwtManager R) (user_id : ℕ) (username role : String)
      (laws : JwtLaws lib m.secret (claims_for lib redis hash now issued m user_id username role))
      → later < lib.numeric_date (now + m.expiration)
      → (token : String) × (generate_token lib redis hash now issued m user_id username role
          ≡ returns (token, now + m.expiration))
        × ((validate_token lib redis hash later m token
              ≡ returns (claims_for lib redis hash now issued m user_id username role))
            ⊎ (is_blacklisted lib redis hash later m token ≡ returns true))
  validate-generate now issued later m user_id username role laws fresh =
      validate-generate_shared now issued later m m user_id username role laws refl fresh

  positive_answer :
      (b : Bool) (answer : Result String ℕ)
      → ((n : ℕ) → answer ≡ returns n → 0 < n)
      → is_positive lib redis hash answer ≡ returns b
      → b ≡ true
  positive_answer b (returns n) h asked = ground (arith, h n refl)
  positive_answer b (fails e) h asked = ground arith

  -- What Redis answers on a token whose revocation was stored.
  revoked :
      (laws : RedisLaws redis) (now later expiry : ℕ) (m : JwtManager R) (r s : R) (token : String)
      (b : Bool)
      → now < expiry
      → redis.set_key r now (token_blacklist_key lib redis hash token) "1" (expiry - now)
        ≡ (s, none)
      → later < expiry
      → is_blacklisted lib redis hash later (record m { redis = some s }) token ≡ returns b
      → b ≡ true
  unfolding is_blacklisted
  revoked laws now later expiry m r s token b alive set early asked =
      positive_answer b (redis.exists_key s later (token_blacklist_key lib redis hash token))
        (λ n found.
          laws.keeps r s now later (token_blacklist_key lib redis hash token) "1" (expiry - now) n
            set (omega arith) found)
        asked

  -- `BlacklistToken` of an accepted token with an expiry, while Redis answers: the call returns nil,
  -- and until that expiry the token is refused as revoked whenever Redis answers. Only the contents
  -- of Redis change.
  pub validate-blacklist :
      (laws : RedisLaws redis) (now later expiry : ℕ) (m : JwtManager R) (r s : R) (token : String)
      (claims : Claims) (b : Bool)
      → m.redis ≡ some r
      → validate_token lib redis hash now m token ≡ returns claims
      → claims.expires_at ≡ some expiry
      → now < expiry
      → redis.set_key r now (token_blacklist_key lib redis hash token) "1" (expiry - now)
        ≡ (s, none)
      → later < expiry
      → is_blacklisted lib redis hash later (record m { redis = some s }) token ≡ returns b
      → (blacklist_token lib redis hash now m token ≡ (record m { redis = some s }, blacklisted))
        × (validate_token lib redis hash later (record m { redis = some s }) token
            ≡ fails "token has been revoked")
  unfolding blacklist_token validate_token is_blacklisted
  validate-blacklist laws now later expiry m r s token claims b on valid exp alive set early asked =
      let true_b = revoked laws now later expiry m r s token b alive set early asked in
      (ground arith, ground arith)
