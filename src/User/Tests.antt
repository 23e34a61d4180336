-- ===== src/User/Tests.antt =====
-- The theorems with the small libraries of Samples.
use online_game.Prelude.{
  ap, sym, ◌∙◌, Bool-cases, ℕ, zero, suc, ◌≡◌, refl, ◌⊎◌, inl, inr, String, true, none, some, [],
  ◌∷◌, arith,
}
use online_game.Prelude.Dict.{Dict, lookup, insert, lookup-insert}
use online_game.Prelude.Equality.{◌==◌, string_eq, beq_refl}
use online_game.Prelude.Result.{returns, fails}
use online_game.Api.Error.{AppError, named, with_message, err_user_exists}
use online_game.Auth.{generate_token, validate_token, is_blacklisted}
use online_game.User.{User, LoginResponse, Service}
use online_game.User.Accounts.{register, login, cached_user, get_user, user_info}
use online_game.User.Sessions
use online_game.User.Sessions.{AccountLaws}
use online_game.User.Caching
use online_game.User.Caching.{CacheLaws, Agrees}
use online_game.User.Samples.{
  Rows, named_row, row_of, inserted, small_db, hash_of, text_of, unary_key, ann, tokens,
  tokens-Laws, ann_claims, no_redis, libs, service, ann_request, ann_login,
}

ann-registers : register libs 3 ann_request (service []) ≡ (service (ann ∷ []), returns ann)
unfolding register
ann-registers = refl

stranger_login :
    login libs 10 10 (record { username = "bob"; password = "x" }) (service (ann ∷ []))
    ≡ (service (ann ∷ []), fails (named online_game.Api.Error.err_user_not_found))
unfolding login named
stranger_login = refl

inserted-finds :
    (d e : Rows) (u v : User)
    → small_db.create_user d u ≡ (e, returns v)
    → (named_row u.username e ≡ returns v)
      × (v.username ≡ u.username)
      × (v.password ≡ u.password)
      × (v.status ≡ u.status)
inserted-finds d e u v made =
    let e_is : inserted d u ∷ d ≡ e = ap (λ p. p.0) made in
    let v_is : inserted d u ≡ v = ground arith in
    rw (sym e_is, sym v_is) (rw (beq_refl u.username) refl, refl, refl, refl)

libs-Laws : AccountLaws libs
libs-Laws = record {
  finds = λ d e u v active made. inserted-finds d e u v made;
  matches = λ salt password hashed made. ground (arith, beq_refl (hash_of password));
}

ann-logs_in :
    login libs 10 10 ann_login (service (ann ∷ []))
    ≡ (service (ann ∷ []), returns (record { token = "k.ann"; expires_at = 110; user = ann }))
unfolding login generate_token
ann-logs_in = refl

login-register_example :
    (resp : LoginResponse) × ((login libs 10 10 ann_login (service (ann ∷ []))).1 ≡ returns resp)
    × (resp.user ≡ ann)
    × ((validate_token tokens no_redis (λ s. s) 50 (service []).jwt_manager resp.token
          ≡ returns ann_claims)
        ⊎ (is_blacklisted tokens no_redis (λ s. s) 50 (service []).jwt_manager resp.token
            ≡ returns true))
login-register_example =
    Sessions.login-register libs libs-Laws 3 10 10 50 ann_request (service []) (service (ann ∷ []))
      ann tokens-Laws ann-registers (omega arith)

abbrev warm : Service Rows (Dict String String) ℕ
warm = record (service (ann ∷ [])) { cache = some (("u", "ann") ∷ []) }

abbrev count : String → ℕ
count String.[] = zero
count (String.◌∷◌ c s) = suc (count s)

count-unary_key : (n : ℕ) → count (unary_key n) ≡ n
count-unary_key zero = refl
count-unary_key (suc n) = ap suc (count-unary_key n)

keys_differ : (a b : ℕ) → unary_key a ≡ unary_key b → a ≡ b
keys_differ a b h = sym (count-unary_key a) ∙ ap count h ∙ count-unary_key b

only_ann :
    (id : ℕ) (u : User)
    → cached_user libs id warm.cache ≡ some u
    → (1 ≡ id) × (record ann { password = "" } ≡ u)
unfolding cached_user lookup
only_ann id u h = elim (Bool-cases (unary_key 1 == unary_key id)) [
  | inl same ↦
      (keys_differ 1 id ((string_eq.decides (unary_key 1) (unary_key id)).0 same), ground arith)
  | inr differ ↦ ground arith
]

warm-cached :
    (id : ℕ) (u : User)
    → cached_user libs id warm.cache ≡ some u
    → (v : User) × (row_of id (ann ∷ []) ≡ returns v) × (user_info v ≡ user_info u)
warm-cached id u h = let only = only_ann id u h in (ann, rw (sym only.0) refl, ap user_info only.1)

ann-stored : (id : ℕ) (u : User) → row_of id (ann ∷ []) ≡ returns u → u ≡ ann
ann-stored id u h = ground arith

cache-reads :
    (c : Dict String String) (key asked text found : String)
    → text_of (lookup asked (insert key text c)) ≡ returns found
    → (key ≡ asked) × (found ≡ text) ⊎ (text_of (lookup asked c) ≡ returns found)
cache-reads c key asked text found h =
    ground (arith, lookup-insert key asked text c, string_eq.decides key asked)

ann-read :
    (u : User) (text : String)
    → u ≡ ann
    → text ≡ u.username
    → libs.unmarshal text ≡ some (record u { password = ""; deleted_at = none })
ann-read u text is_ann same = rw (same, is_ann) refl

libs-CacheLaws : CacheLaws libs (ann ∷ [])
libs-CacheLaws = record {
  reads = λ c key asked text found ttl h. cache-reads c key asked text found h;
  keys_differ = keys_differ;
  round_trip = λ id u text row written. ann-read u text (ann-stored id u row) (ground arith);
}

nothing_cached :
    (id : ℕ) (u : User)
    → cached_user libs id (some []) ≡ some u
    → (v : User) × (row_of id (ann ∷ []) ≡ returns v) × (user_info v ≡ user_info u)
unfolding cached_user lookup
nothing_cached id u h = (ann, ground arith, ground arith)

get_user-Agrees_example :
    Agrees libs
      (get_user libs 1 (service (ann ∷ []))).0.db
      (get_user libs 1 (service (ann ∷ []))).0.cache
get_user-Agrees_example =
    Caching.get_user-Agrees libs 1 (service (ann ∷ [])) libs-CacheLaws
      (λ id u h. nothing_cached id u h)
