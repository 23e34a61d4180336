-- ===== src/Processes/Tokens.antt =====
-- What the processes of cmd/ share when they are up: tokens, their revocation, and who may administrate.
use mathlib.Core.Option
use online_game.Prelude.{
  ℕ, ◌+◌, ◌<◌, ◌≡◌, refl, sym, ◌∙◌, ap, ◌⊎◌, inl, inr, String, true, Option, none, some, [], ◌∷◌,
  arith, Option-cases,
}
use online_game.Prelude.Equality.{string_eq}
use online_game.Prelude.Int.{ℤ}
use online_game.Prelude.Result.{Result, returns, fails, Result-cases}
use online_game.Prelude.Text.{concat}
use online_game.Auth.{
  JwtLibrary, RedisClient, JwtManager, blacklisted, claims_for, generate_token, is_blacklisted,
  parse_token, validate_token, blacklist_token, new_jwt_manager, set_redis_client,
}
use online_game.Auth.Libraries.{JwtLaws}
use online_game.Auth.Tokens.{validate-generate_shared}
use online_game.Config.{Config, load, env_or}
use online_game.User as User
use online_game.User.Accounts.{new_service, set_cache}
use online_game.User.Grpc.{ValidateTokenResponse}
use online_game.GameService as GameService
use online_game.GameService.Access.{gated, passed}
use online_game.Admin as Admin
use online_game.Admin.Access.{admin_gate}
use online_game.Processes.Clients.{
  Gorm, GoRedis, new_database, new_client, health, start_server, new_user_service_client,
}
use online_game.Processes.Server.{new_server}
use online_game.Processes.Boot.{
  exits, serves, Running, RunningAdmin, server_of, redis_of, manager_of, boot_grpc, boot_user,
  boot_game, admin_client, boot_admin, migrate_user, migrate_admin, new_admin_service,
}

module _ {P R : Type 0} (gorm : Gorm P) (redis : GoRedis R) (listen : String → Option String)
    (getenv : String → String) (atoi : String → Result String ℤ) where
  -- How the end of a main goes on: it exits, or what serves is what was made.
  boot_grpc_cases :
      {S : Type 0} (cfg : Config) (service : S) (m : JwtManager R)
      → let addr = concat (cfg.host ∷ ":" ∷ cfg.grpc_port ∷ []) in
        ((e : String) × (listen addr ≡ some e)
          × (boot_grpc gorm redis listen getenv atoi cfg service m ≡ exits 1))
        ⊎ ((listen addr ≡ none)
            × (boot_grpc gorm redis listen getenv atoi cfg service m
                ≡ serves (record { service = service; jwt_manager = m; http = server_of cfg })))
  unfolding boot_grpc start_server
  boot_grpc_cases cfg service m =
      elim (Option-cases (listen (concat (cfg.host ∷ ":" ∷ cfg.grpc_port ∷ [])))) [
        | inl fine ↦ inr (fine, rw (fine, boot_grpc, start_server) refl)
        | inr (e, taken) ↦ inl (e, taken, rw (taken, boot_grpc, start_server) refl)
      ]

  -- The user service exits with status 1 when its database does not open, or when its gRPC address
  -- is not to be had. Otherwise it serves, on the port of its configuration, with the configured
  -- secret and the expiration given: its tokens are checked against the Redis client that answered
  -- a ping, or against none, and its cache is the same client or none.
  boot_user_cases :
      (expiration : ℕ)
      → let cfg = load getenv atoi "user-service" in
        let r = boot_user gorm redis listen getenv atoi expiration in
        (((e : String) × (new_database gorm cfg.database ≡ fails e)) × (r ≡ exits 1))
        ⊎ ((((e : String) × (listen (concat (cfg.host ∷ ":" ∷ cfg.grpc_port ∷ [])) ≡ some e))
              × (r ≡ exits 1))
            ⊎ ((u : Running (User.Service P R R) R) × (r ≡ serves u)
                × (u.jwt_manager.secret ≡ cfg.jwt_secret)
                × (u.jwt_manager.expiration ≡ expiration)
                × (u.jwt_manager.redis ≡ redis_of redis cfg.redis)
                × (u.service.jwt_manager ≡ u.jwt_manager)
                × (u.service.cache ≡ u.jwt_manager.redis)
                × (u.http.cfg.port ≡ cfg.port)))
  unfolding boot_user manager_of new_jwt_manager set_redis_client migrate_user set_cache new_service
      server_of new_server
  boot_user_cases expiration =
      let cfg = load getenv atoi "user-service" in
      elim (Result-cases (new_database gorm cfg.database)) [
        | inl (e, failed) ↦ inl ((e, failed), rw (failed, boot_user) refl)
        | inr (db, up) ↦
            let m = manager_of gorm redis listen getenv atoi expiration cfg in
            let service =
              migrate_user gorm (set_cache (redis_of redis cfg.redis) (new_service db m)) in
            elim (boot_grpc_cases cfg service m) [
              | inl (e, taken, out) ↦ inr (inl ((e, taken), rw (up, boot_user) out))
              | inr (fine, on) ↦ inr (
                  inr (
                    record { service = service; jwt_manager = m; http = server_of cfg },
                    rw (up, boot_user) on,
                    refl,
                    refl,
                    refl,
                    refl,
                    refl,
                    refl,
                  ))
            ]
      ]

  -- Where the user service serves, what it answers on a token.
  boot_user-manager :
      (expiration : ℕ) (u : Running (User.Service P R R) R)
      → boot_user gorm redis listen getenv atoi expiration ≡ serves u
      → u.jwt_manager
        ≡ manager_of gorm redis listen getenv atoi expiration (load getenv atoi "user-service")
  unfolding boot_user boot_grpc start_server
  boot_user-manager expiration u up = ground arith

  boot_game-manager :
      {V B : Type 0} (expiration : ℕ) (g : Running (GameService.Service P R V B) R)
      → boot_game gorm redis listen getenv atoi expiration ≡ serves g
      → g.jwt_manager
        ≡ manager_of gorm redis listen getenv atoi expiration (load getenv atoi "game-service")
  unfolding boot_game boot_grpc start_server
  boot_game-manager expiration g up = ground arith

module _ {P R : Type 0} (gorm : Gorm P) (redis : GoRedis R) (atoi : String → Result String ℤ)
    (lib : JwtLibrary) (store : RedisClient R) (hash : String → String) where
  -- A user service and a game service that serve, and were started with the same JWT_SECRET or
  -- both without one: with a JWT library that signs the claims of a user and parses them back, the
  -- user service can make a token for the user, and until the expiration of the user service has
  -- passed the game service accepts it with these claims, unless its Redis finds it revoked.
  pub boot-token :
      {V B : Type 0} (user_listen game_listen : String → Option String)
      (user_env game_env : String → String) (user_expiration game_expiration : ℕ)
      (u : Running (User.Service P R R) R) (g : Running (GameService.Service P R V B) R)
      (now issued later user_id : ℕ) (username role : String)
      → boot_user gorm redis user_listen user_env atoi user_expiration ≡ serves u
      → boot_game gorm redis game_listen game_env atoi game_expiration ≡ serves g
      → user_env "JWT_SECRET" ≡ game_env "JWT_SECRET"
      → JwtLaws lib u.jwt_manager.secret
          (claims_for lib store hash now issued u.jwt_manager user_id username role)
      → later < lib.numeric_date (now + u.jwt_manager.expiration)
      → (token : String) × (generate_token lib store hash now issued u.jwt_manager user_id username
            role
          ≡ returns (token, now + u.jwt_manager.expiration))
        × ((validate_token lib store hash later g.jwt_manager token
              ≡ returns (claims_for lib store hash now issued u.jwt_manager user_id username role))
            ⊎ (is_blacklisted lib store hash later g.jwt_manager token ≡ returns true))
  unfolding manager_of new_jwt_manager set_redis_client load env_or
  boot-token user_listen game_listen user_env game_env user_expiration game_expiration u g now
        issued later user_id username role user_up game_up shared laws fresh =
      let of_user =
        boot_user-manager gorm redis user_listen user_env atoi user_expiration u user_up in
      let of_game =
        boot_game-manager gorm redis game_listen game_env atoi game_expiration g game_up in
      let same : g.jwt_manager.secret ≡ u.jwt_manager.secret =
        ap (λ m. m.secret) of_game ∙ rw shared refl ∙ sym (ap (λ m. m.secret) of_user) in
      validate-generate_shared lib store hash now issued later u.jwt_manager g.jwt_manager user_id
        username role laws same fresh

  -- A user service that serves and whose Redis did not answer a ping at its start validates every
  -- token by the token alone; and to revoke a token reports success and changes nothing.
  pub boot_user-unrevoked :
      (listen : String → Option String) (getenv : String → String) (expiration : ℕ)
      (u : Running (User.Service P R R) R) (e : String) (now : ℕ) (token : String)
      → boot_user gorm redis listen getenv atoi expiration ≡ serves u
      → health redis (new_client redis (load getenv atoi "user-service").redis) ≡ some e
      → (validate_token lib store hash now u.jwt_manager token
          ≡ parse_token lib store hash now u.jwt_manager token)
        × (blacklist_token lib store hash now u.jwt_manager token ≡ (u.jwt_manager, blacklisted))
  unfolding manager_of set_redis_client redis_of validate_token blacklist_token
  boot_user-unrevoked listen getenv expiration u e now token up silent =
      let off : u.jwt_manager.redis ≡ none =
        ap (λ m. m.redis) (boot_user-manager gorm redis listen getenv atoi expiration u up)
        ∙ rw (silent, redis_of) refl in
      (rw (off, validate_token) refl, ground (arith, off))

module _ {P F K : Type 0} (gorm : Gorm P) (paths : Admin.Paths) (mkdir_all : String → F → F)
    (dial : String → Result String K) (getenv : String → String)
    (atoi : String → Result String ℤ) where
  admin_client-none :
      (cfg : Config) (e : String)
      → dial (env_or getenv atoi "USER_GRPC_ADDR" "localhost:9001") ≡ fails e
      → admin_client gorm paths mkdir_all dial getenv atoi cfg ≡ none
  unfolding admin_client new_user_service_client
  admin_client-none cfg e failed = ground (arith, failed)

  -- The admin service whose database opens, and that cannot make its client of the user service,
  -- serves all the same; a request with any header is then passed on to its handler, under no
  -- name.
  pub boot_admin-open :
      {S A : Type 0} (validate : K → String → Result String ValidateTokenResponse) (files : F)
      (db : P) (e : String) (next : String → S → S × A) (header : String) (s : S)
      → new_database gorm (load getenv atoi "admin-service").database ≡ returns db
      → dial (env_or getenv atoi "USER_GRPC_ADDR" "localhost:9001") ≡ fails e
      → (r : RunningAdmin (Admin.Service P F) K) × (boot_admin gorm paths mkdir_all dial getenv atoi
            files
          ≡ serves r)
        × (gated (admin_gate (Option.map validate r.user_client) header) next s
            ≡ ((next "" s).0, passed (next "" s).1))
  unfolding boot_admin admin_client new_user_service_client gated admin_gate
  boot_admin-open validate files db e next header s up failed =
      let cfg = load getenv atoi "admin-service" in
      let none_made = admin_client-none cfg e failed in
      let storage_path = paths.join ("." ∷ "data" ∷ "games" ∷ []) in
      let r : RunningAdmin (Admin.Service P F) K = record {
        service =
            migrate_admin gorm (new_admin_service db (mkdir_all storage_path files) storage_path);
        user_client = none;
        http = server_of cfg;
      } in
      (r, rw (up, boot_admin, none_made) refl, refl)
