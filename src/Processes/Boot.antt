-- ===== src/Processes/Boot.antt =====
-- The mains of cmd/user-service, cmd/game-service and cmd/admin-service up to the wait for a signal.
-- Times and durations are natural numbers, so `expiration` is the duration of JWT_EXPIRY_HOURS where
-- that is not negative.
use online_game.Prelude.{ℕ, String, Option, none, some, [], ◌∷◌, if◌then◌else◌}
use online_game.Prelude.Equality.{◌==◌, string_eq}
use online_game.Prelude.Int.{ℤ}
use online_game.Prelude.Result.{Result, returns, fails}
use online_game.Prelude.Text.{concat}
use online_game.Auth.{JwtManager, new_jwt_manager, set_redis_client}
use online_game.Config.{Config, RedisConfig, load, env_or}
use online_game.Actor.System.{ActorSystem, new_actor_system}
use online_game.Websocket.Gateway.{Gateway, new_gateway, default_gateway_config}
use online_game.User as User
use online_game.User.Accounts.{new_service, set_cache}
use online_game.GameService as GameService
use online_game.GameService.Rooms.{mailbox}
use online_game.Admin as Admin
use online_game.Processes.Clients.{
  Gorm, GoRedis, new_database, new_client, health, start_server, new_user_service_client,
}
use online_game.Processes.Server.{Server, new_server}

-- A process has exited with a status, or it serves and waits for a signal.
pub data Boot (S : Type 0) : Type 0 where
  exits : ℕ → Boot S
  serves : S → Boot S

unfoldable pub server_of : Config → Server
unfolding new_server
server_of cfg = new_server (record { host = cfg.host; port = cfg.port; env = cfg.env })

-- `NewService` and `SetCache` of internal/game/service.go.
module _ {D C V B : Type 0} where
  unfoldable pub new_game_service :
      D → ActorSystem (GameService.RoomActor V) → Gateway B → Option C → GameService.Service D C V B
  new_game_service db actor_system ws_gateway cache = record {
    db = db;
    actor_system = actor_system;
    ws_gateway = ws_gateway;
    cache = cache;
  }

  unfoldable set_game_cache : Option C → GameService.Service D C V B → GameService.Service D C V B
  set_game_cache cache s = record s { cache = cache }

-- `NewService` of internal/admin/handler.go; the file system is the process's.
unfoldable pub new_admin_service : {D F : Type 0} → D → F → String → Admin.Service D F
new_admin_service db files storage_path = record {
  db = db;
  files = files;
  storage_path = storage_path;
}

module _ {P : Type 0} (gorm : Gorm P) where
  -- The three `Migrate`s, whose errors the mains ignore.
  unfoldable pub migrate_user : {C R : Type 0} → User.Service P C R → User.Service P C R
  migrate_user s = record s { db = (gorm.auto_migrate ("User" ∷ "UserSession" ∷ []) s.db).0 }

  unfoldable pub migrate_game :
      {C V B : Type 0} → GameService.Service P C V B → GameService.Service P C V B
  migrate_game s = record s {
    db =
        (gorm.auto_migrate ("Game" ∷ "GameVersion" ∷ "GameRoom" ∷ "GameSession" ∷ "RoomPlayer" ∷ [])
          s.db).0;
  }

  unfoldable pub migrate_admin : {F : Type 0} → Admin.Service P F → Admin.Service P F
  migrate_admin s = record s { db = (gorm.auto_migrate ("Game" ∷ "GameVersion" ∷ []) s.db).0 }

-- What runs when the user service or the game service is up: the service, what validates tokens for
-- it, and the HTTP server that is to be started.
pub record Running (S R : Type 0) : Type 0 where
  pub service : S
  pub jwt_manager : JwtManager R
  pub http : Server

-- A client whose server answers a ping, or no client.
unfoldable pub redis_of : {R : Type 0} → GoRedis R → RedisConfig → Option R
unfolding new_client health
redis_of redis cfg =
    let client = new_client redis cfg in
    elim (health redis client) [ none ↦ some client | some e ↦ none ]

module _ {P R : Type 0} (gorm : Gorm P) (redis : GoRedis R) (listen : String → Option String)
    (getenv : String → String) (atoi : String → Result String ℤ) where
  abbrev after_grpc : {S : Type 0} → Config → Option String → S → Boot S
  after_grpc cfg (some e) s = exits 1
  after_grpc cfg none s = serves s

  -- The end of both mains: the gRPC server is started, and then the HTTP server is made.
  unfoldable pub boot_grpc : {S : Type 0} → Config → S → JwtManager R → Boot (Running S R)
  unfolding start_server server_of
  boot_grpc cfg service manager =
      after_grpc cfg (start_server listen (concat (cfg.host ∷ ":" ∷ cfg.grpc_port ∷ [])))
        (record { service = service; jwt_manager = manager; http = server_of cfg })

  unfoldable pub manager_of : ℕ → Config → JwtManager R
  unfolding new_jwt_manager set_redis_client redis_of
  manager_of expiration cfg =
      set_redis_client (redis_of redis cfg.redis) (new_jwt_manager cfg.jwt_secret expiration)

  unfoldable pub boot_user : ℕ → Boot (Running (User.Service P R R) R)
  unfolding load new_database manager_of redis_of new_service set_cache migrate_user boot_grpc
  boot_user expiration =
      let cfg = load getenv atoi "user-service" in
      elim (new_database gorm cfg.database) [
        | fails e ↦ exits 1
        | returns db ↦
            let manager = manager_of expiration cfg in
            let service =
              migrate_user gorm (set_cache (redis_of redis cfg.redis) (new_service db manager)) in
            boot_grpc cfg service manager
      ]

  unfoldable pub boot_game : {V B : Type 0} → ℕ → Boot (Running (GameService.Service P R V B) R)
  unfolding load new_database manager_of redis_of new_game_service migrate_game boot_grpc
      new_actor_system new_gateway mailbox
  boot_game expiration =
      let cfg = load getenv atoi "game-service" in
      elim (new_database gorm cfg.database) [
        | fails e ↦ exits 1
        | returns db ↦
            let service = migrate_game gorm (
              new_game_service db (new_actor_system mailbox) (new_gateway default_gateway_config)
                (redis_of redis cfg.redis)) in
            boot_grpc cfg service (manager_of expiration cfg)
      ]

-- The admin service while it serves: the client with which its middleware asks the user service, if
-- there is one.
pub record RunningAdmin (S K : Type 0) : Type 0 where
  pub service : S
  pub user_client : Option K
  pub http : Server

module _ {P F K : Type 0} (gorm : Gorm P) (paths : Admin.Paths) (mkdir_all : String → F → F)
    (dial : String → Result String K) (getenv : String → String)
    (atoi : String → Result String ℤ) where
  abbrev client_or_none : Result String K → Option K
  client_or_none (returns client) = some client
  client_or_none (fails e) = none

  unfoldable pub admin_client : Config → Option K
  unfolding new_user_service_client env_or
  admin_client cfg =
      if cfg.grpc_port == ""
      then none
      else client_or_none
          (new_user_service_client dial (env_or getenv atoi "USER_GRPC_ADDR" "localhost:9001"))

  unfoldable pub boot_admin : F → Boot (RunningAdmin (Admin.Service P F) K)
  unfolding load new_database admin_client new_admin_service migrate_admin server_of
  boot_admin files =
      let cfg = load getenv atoi "admin-service" in
      elim (new_database gorm cfg.database) [
        | fails e ↦ exits 1
        | returns db ↦
            let storage_path = paths.join ("." ∷ "data" ∷ "games" ∷ []) in
            serves (record {
              service =
                  migrate_admin gorm
                    (new_admin_service db (mkdir_all storage_path files) storage_path);
              user_client = admin_client cfg;
              http = server_of cfg;
            })
      ]
