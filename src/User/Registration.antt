-- ===== src/User/Registration.antt =====
-- `Register`, and a login after it.
use online_game.Prelude.{ℕ, ◌<◌, ◌≡◌, refl, ◌⊎◌, inl, inr, Bool-cases, String, ltb, arith}
use online_game.Prelude.Equality.{string_eq}
use online_game.Prelude.Result.{Result, returns, fails}
use online_game.Api.Error.{AppError, named, with_message, err_user_exists}
use online_game.User.{User, RegisterRequest, Libraries, Service}
use online_game.User.Accounts.{counted, new_user, created_user, create_hashed, register}

module _ {D C R : Type 0} (libs : Libraries D C R) where
  -- A name or an address is taken if a query finds it; a query that fails finds nothing.
  abbrev Taken : RegisterRequest → Service D C R → Type 0
  Taken req s =
      (0 < counted (libs.db.count_username s.db req.username))
      ⊎ (0 < counted (libs.db.count_email s.db req.email))

  -- A name or an address that is taken is refused with the code of an existing user, and nothing
  -- changes.
  register-refuses :
      (salt : ℕ) (req : RegisterRequest) (s : Service D C R)
      → Taken req s
      → (e : AppError) × (register libs salt req s ≡ (s, fails e))
        × (e.code ≡ (named err_user_exists).code)
  unfolding register with_message named
  register-refuses salt req s taken =
      elim (Bool-cases (ltb 0 (counted (libs.db.count_username s.db req.username)))) [
        | inl name ↦ (with_message "用户名已存在" (named err_user_exists), rw name refl, refl)
        | inr free ↦ (with_message "邮箱已被注册" (named err_user_exists), ground arith, refl)
      ]

  created_user-returns :
      (s t : Service D C R) (p : D × Result String User) (u : User)
      → created_user libs s p ≡ (t, returns u)
      → (p ≡ (t.db, returns u)) × (t ≡ record s { db = t.db })
  unfolding created_user
  created_user-returns s t (d, returns v) u h = ground arith
  created_user-returns s t (d, fails e) u h = ground arith

  create_hashed-returns :
      (req : RegisterRequest) (s t : Service D C R) (r : Result String String) (u : User)
      → create_hashed libs req s r ≡ (t, returns u)
      → (h : String) × (r ≡ returns h)
        × (libs.db.create_user s.db (new_user req h) ≡ (t.db, returns u))
        × (t ≡ record s { db = t.db })
  unfolding create_hashed
  create_hashed-returns req s t (returns h) u eq =
      let made = created_user-returns s t (libs.db.create_user s.db (new_user req h)) u eq in
      (h, refl, made.0, made.1)
  create_hashed-returns req s t (fails e) u eq = ground arith

  -- An account is only created for a name and an address that no query found, with the hash of the
  -- password, the status of a player and the nickname, or else the name; only the database changes.
  pub register-returns :
      (salt : ℕ) (req : RegisterRequest) (s t : Service D C R) (u : User)
      → register libs salt req s ≡ (t, returns u)
      → (counted (libs.db.count_username s.db req.username) ≡ 0)
        × (counted (libs.db.count_email s.db req.email) ≡ 0)
        × (t ≡ record s { db = t.db })
        × ((h : String) × (libs.bcrypt.generate_from_password salt req.password ≡ returns h)
            × (libs.db.create_user s.db (new_user req h) ≡ (t.db, returns u)))
  unfolding register
  register-returns salt req s t u eq =
      let r = libs.bcrypt.generate_from_password salt req.password in
      let reached : create_hashed libs req s r ≡ (t, returns u) = ground arith in
      let made = create_hashed-returns req s t r u reached in
      (ground arith, ground arith, made.3, (made.0, made.1, made.2))
