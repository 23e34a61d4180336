-- ===== src/User/Caching.antt =====
-- `GetUser` with a cache gives what it gives without one.
use online_game.Prelude.{
  ℕ, ◌≡◌, refl, sym, ap, ◌∙◌, ◌⊎◌, inl, inr, String, Option, none, some, arith, Option-cases,
}
use online_game.Prelude.Result.{Result, Result-cases, returns, fails}
use online_game.User.{User, Libraries, Service}
use online_game.User.Accounts.{cached_user, decoded, store_user, get_user, get_user_info, user_info}

module _ {D C R : Type 0} (libs : Libraries D C R) where
  -- What is read back is what was there, or what was written under that key; ids have different
  -- keys; and JSON keeps all of a row but what its tags leave out.
  pub record CacheLaws (d : D) : Type 0 where
    pub reads :
        (c : C) (key asked text found : String) (ttl : ℕ)
        → libs.cache.get_key (libs.cache.set_key c key text ttl) asked ≡ returns found
        → (key ≡ asked) × (found ≡ text) ⊎ (libs.cache.get_key c asked ≡ returns found)
    pub keys_differ : (a b : ℕ) → libs.user_key a ≡ libs.user_key b → a ≡ b
    pub round_trip :
        (id : ℕ) (u : User) (text : String)
        → libs.db.first_by_id d id ≡ returns u
        → libs.marshal u ≡ some text
        → libs.unmarshal text ≡ some (record u { password = ""; deleted_at = none })

  -- Every user in the cache is in the database with the same public data.
  abbrev pub Agrees : D → Option C → Type 0
  Agrees d cache =
      (id : ℕ) (u : User)
      → cached_user libs id cache ≡ some u
      → (v : User) × (libs.db.first_by_id d id ≡ returns v) × (user_info v ≡ user_info u)

  -- While the cache agrees with the database, the public data of a user is what the database says,
  -- or its error, as without a cache.
  get_user_info_lem :
      (id : ℕ) (s : Service D C R)
      → Agrees s.db s.cache
      → (get_user_info libs id s).1 ≡ (get_user_info libs id (record s { cache = none })).1
  unfolding get_user_info get_user cached_user store_user
  get_user_info_lem id s agrees = elim (Option-cases (cached_user libs id s.cache)) [
    | inl missing ↦ ground arith
    | inr (u, hit) ↦ ground (arith, agrees id u hit)
  ]

  decoded-some :
      (r : Result String String) (u : User)
      → decoded libs r ≡ some u
      → (text : String) × (r ≡ returns text) × (libs.unmarshal text ≡ some u)
  decoded-some (returns text) u h = (text, refl, h)
  decoded-some (fails e) u h = ground arith

  some_injective : {u v : User} → some u ≡ some v → u ≡ v
  some_injective h = cc h

  stored_user :
      (d : D) (laws : CacheLaws d) (id asked : ℕ) (user u : User) (cache : Option C)
      → libs.db.first_by_id d id ≡ returns user
      → cached_user libs asked (store_user libs id user cache) ≡ some u
      → (id ≡ asked) × (u ≡ record user { password = ""; deleted_at = none })
        ⊎ (cached_user libs asked cache ≡ some u)
  unfolding cached_user store_user
  stored_user d laws id asked user u none row h = inr h
  stored_user d laws id asked user u (some c) row h = elim (Option-cases (libs.marshal user)) [
    | inl unwritten ↦ inr (ground arith)
    | inr (text, written) ↦
        let set = libs.cache.set_key c (libs.user_key id) text 1800000000000 in
        let found = decoded-some (libs.cache.get_key set (libs.user_key asked)) u (ground arith) in
        elim (laws.reads c (libs.user_key id) (libs.user_key asked) text found.0 1800000000000
          found.1) [
            | inl (key, same) ↦ inl (
              laws.keys_differ id asked key,
              some_injective
                  (sym found.2 ∙ ap libs.unmarshal same ∙ laws.round_trip id user text row written),
            )
            | inr old ↦ inr (rw old found.2)
          ]
  ]

  get_user_state :
      (id : ℕ) (s : Service D C R)
      → ((get_user libs id s).0 ≡ s)
        ⊎ (user : User) × (libs.db.first_by_id s.db id ≡ returns user)
          × ((get_user libs id s).0 ≡ record s { cache = store_user libs id user s.cache })
  unfolding get_user
  get_user_state id s = elim (Option-cases (cached_user libs id s.cache)) [
    | inr (u, hit) ↦ inl (ground arith)
    | inl missing ↦ elim (Result-cases (libs.db.first_by_id s.db id)) [
      | inl (e, bad) ↦ inl (ground arith)
      | inr (user, row) ↦ inr (user, row, ground arith)
    ]
  ]

  -- Looking a user up keeps the agreement of the cache with the database.
  pub get_user-Agrees :
      (id : ℕ) (s : Service D C R) (laws : CacheLaws s.db)
      → Agrees s.db s.cache
      → Agrees (get_user libs id s).0.db (get_user libs id s).0.cache
  unfolding get_user
  get_user-Agrees id s laws agrees = elim (get_user_state id s) [
    | inl same ↦ rw same agrees
    | inr (user, row, stored) ↦ rw stored (λ asked u h.
        elim (stored_user s.db laws id asked user u s.cache row h) [
          | inl (here, kept) ↦ (user, rw (sym here) row, rw kept refl)
          | inr old ↦ agrees asked u old
        ])
  ]
