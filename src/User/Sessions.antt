-- ===== src/User/Sessions.antt =====
-- `Login`: who gets a token, and what the token says.
use online_game.Prelude.{
  ℕ, ◌+◌, ◌<◌, ◌≡◌, refl, ◌⊎◌, String, true, Option, none, some, arith, nat_beq, if◌then◌else◌,
}
use online_game.Prelude.Equality.{string_eq}
use online_game.Prelude.Result.{Result, returns, fails}
use online_game.Auth.{claims_for, generate_token, is_blacklisted, validate_token}
use online_game.Auth.Libraries.{JwtLaws}
use online_game.Auth.Tokens.{validate-generate}
use online_game.User.{
  User, LoginRequest, RegisterRequest, LoginResponse, QueryError, Libraries, Service,
}
use online_game.User.Accounts.{
  new_user, register, login, admit, login_found, with_token, role_of, new_session,
}
use online_game.User.Registration.{register-returns}

module _ {D C R : Type 0} (libs : Libraries D C R) where
  abbrev token_for : ℕ → ℕ → User → Service D C R → Result String (String × ℕ)
  token_for now issued user s =
      generate_token libs.jwt libs.redis libs.hash now issued s.jwt_manager user.id user.username
        (role_of user)

  with_token-returns :
      (user : User) (s t : Service D C R) (r : Result String (String × ℕ)) (resp : LoginResponse)
      → with_token libs user s r ≡ (t, returns resp)
      → (resp.user ≡ user)
        × (r ≡ returns (resp.token, resp.expires_at))
        × (t ≡ record s {
          db = libs.db.create_session s.db (new_session user.id resp.token resp.expires_at);
        })
  unfolding with_token
  with_token-returns user s t (returns p) resp h = ground arith
  with_token-returns user s t (fails e) resp h = ground arith

  admit-returns :
      (now issued : ℕ) (user : User) (s t : Service D C R) (o : Option String)
      (resp : LoginResponse)
      → admit libs now issued user s o ≡ (t, returns resp)
      → (o ≡ none)
        × (0 < user.status)
        × (with_token libs user s (token_for now issued user s) ≡ (t, returns resp))
  unfolding admit
  admit-returns now issued user s t none resp h = ground arith
  admit-returns now issued user s t (some e) resp h = ground arith

  login_found-returns :
      (now issued : ℕ) (req : LoginRequest) (s t : Service D C R) (r : Result QueryError User)
      (resp : LoginResponse)
      → login_found libs now issued req s r ≡ (t, returns resp)
      → (r ≡ returns resp.user)
        × (libs.bcrypt.compare_hash_and_password resp.user.password req.password ≡ none)
        × (0 < resp.user.status)
        × (token_for now issued resp.user s ≡ returns (resp.token, resp.expires_at))
        × (t ≡ record s {
          db = libs.db.create_session s.db (new_session resp.user.id resp.token resp.expires_at);
        })
  unfolding login_found
  login_found-returns now issued req s t (fails e) resp h = ground arith
  login_found-returns now issued req s t (returns user) resp h =
      let a =
        admit-returns now issued user s t
          (libs.bcrypt.compare_hash_and_password user.password req.password) resp h in
      let w = with_token-returns user s t (token_for now issued user s) resp a.2 in
      rw w.0 (refl, a.0, a.1, w.1, w.2)

  login-admits :
      (now issued : ℕ) (req : LoginRequest) (s : Service D C R) (user : User) (token : String)
      (expires_at : ℕ)
      → libs.db.first_by_username s.db req.username ≡ returns user
      → libs.bcrypt.compare_hash_and_password user.password req.password ≡ none
      → 0 < user.status
      → token_for now issued user s ≡ returns (token, expires_at)
      → (login libs now issued req s).1
        ≡ returns (record { token = token; expires_at = expires_at; user = user })
  unfolding login login_found admit with_token
  login-admits now issued req s user token expires_at found matched active made =
      rw (found, matched) (ground arith)

  -- A token is given only to a user whose name was found, whose stored hash the password matches and
  -- who is not banned. It is a token for the user's id, name and role, the role of an admin for the
  -- status 2 and that of a player for any other, and its session is stored; nothing else changes.
  login-returns :
      (now issued : ℕ) (req : LoginRequest) (s t : Service D C R) (resp : LoginResponse)
      → login libs now issued req s ≡ (t, returns resp)
      → (libs.db.first_by_username s.db req.username ≡ returns resp.user)
        × (libs.bcrypt.compare_hash_and_password resp.user.password req.password ≡ none)
        × (0 < resp.user.status)
        × (generate_token libs.jwt libs.redis libs.hash now issued s.jwt_manager resp.user.id
              resp.user.username
              (if nat_beq resp.user.status 2 then "admin" else "player")
            ≡ returns (resp.token, resp.expires_at))
        × (t ≡ record s {
          db = libs.db.create_session s.db (new_session resp.user.id resp.token resp.expires_at);
        })
  unfolding login login_found
  login-returns now issued req s t resp h =
      login_found-returns now issued req s t (libs.db.first_by_username s.db req.username) resp h

  -- What the service relies on: the row that was created is the one that is found by its name, and
  -- a password matches its own hash.
  pub record AccountLaws : Type 0 where
    pub finds :
        (d e : D) (u v : User)
        → 0 < u.status
        → libs.db.create_user d u ≡ (e, returns v)
        → (libs.db.first_by_username e u.username ≡ returns v)
          × (v.username ≡ u.username)
          × (v.password ≡ u.password)
          × (v.status ≡ u.status)
    pub matches :
        (salt : ℕ) (password hashed : String)
        → libs.bcrypt.generate_from_password salt password ≡ returns hashed
        → libs.bcrypt.compare_hash_and_password hashed password ≡ none

  -- Whoever has registered can log in with the same name and password and gets a token that, until
  -- it expires, is accepted as that of a player with the id of the new account, unless Redis finds
  -- it revoked.
  pub login-register :
      (laws : AccountLaws) (salt now issued later : ℕ) (req : RegisterRequest) (s t : Service D C R)
      (u : User)
      (jwt_laws : JwtLaws libs.jwt s.jwt_manager.secret (
        claims_for libs.jwt libs.redis libs.hash now issued s.jwt_manager u.id req.username
          "player"))
      → register libs salt req s ≡ (t, returns u)
      → later < libs.jwt.numeric_date (now + s.jwt_manager.expiration)
      → (resp : LoginResponse) × ((login libs now issued
            (record { username = req.username; password = req.password })
            t).1
          ≡ returns resp)
        × (resp.user ≡ u)
        × ((validate_token libs.jwt libs.redis libs.hash later s.jwt_manager resp.token
              ≡ returns (
                  claims_for libs.jwt libs.redis libs.hash now issued s.jwt_manager u.id
                    req.username "player"))
            ⊎ (is_blacklisted libs.jwt libs.redis libs.hash later s.jwt_manager resp.token
                ≡ returns true))
  unfolding login login_found admit with_token
  login-register laws salt now issued later req s t u jwt_laws made fresh =
      let reg = register-returns libs salt req s t u made in
      let row = laws.finds s.db t.db (new_user req reg.3.0) u (omega arith) reg.3.2 in
      let same : t.jwt_manager ≡ s.jwt_manager = rw reg.2 refl in
      let role : role_of u ≡ "player" = ground (arith, row.3) in
      let trip =
        validate-generate libs.jwt libs.redis libs.hash now issued later s.jwt_manager u.id
          req.username "player" jwt_laws fresh in
      (
        record { token = trip.0; expires_at = now + s.jwt_manager.expiration; user = u },
        login-admits now issued (record { username = req.username; password = req.password }) t u
            trip.0 (now + s.jwt_manager.expiration) row.0
            (rw row.2 (laws.matches salt req.password reg.3.0 reg.3.1)) (rw row.3 (omega arith))
            (rw (same, role, row.1) trip.1),
        refl,
        trip.2,
      )
