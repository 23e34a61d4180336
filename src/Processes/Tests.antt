-- ===== src/Processes/Tests.antt =====
-- The theorems on the processes at inputs where their hypotheses hold.
use mathlib.Core.Option
use online_game.Prelude.{
  ℕ, ◌+◌, ◌≡◌, ◌⊎◌, refl, arith, String, true, Option, none, some, List, [], ◌∷◌, if◌then◌else◌,
}
use online_game.Prelude.Equality.{◌==◌, string_eq}
use online_game.Prelude.Int.{ℤ, pos}
use online_game.Prelude.Result.{Result, returns, fails}
use online_game.Auth.{
  JwtManager, blacklisted, generate_token, is_blacklisted, parse_token, validate_token,
  blacklist_token,
}
use online_game.Config.{load}
use online_game.User as User
use online_game.User.Samples as Samples
use online_game.GameService as GameService
use online_game.GameService.Samples as Games
use online_game.GameService.World.{creates, connects, closes, disconnects, world_step, world_run}
use online_game.GameService.World.Calls.{FreshAll-last}
use online_game.GameService.World.Moves.{IsValid}
use online_game.Prelude.Dict.{lookup, insert}
use online_game.Processes.Games.{boot_game-IsValid}
use online_game.Actor.Mailbox.{new_base_actor}
use online_game.GameService.Access.{gated, passed}
use online_game.Admin as Admin
use online_game.Admin.Access.{admin_gate}
use online_game.Prelude.Text.{concat}
use online_game.Websocket.Gateway.{after, new_gateway, default_gateway_config}
use online_game.Processes.Clients.{Gorm, GoRedis, new_database}
use online_game.Processes.Boot.{
  serves, Running, RunningAdmin, redis_of, server_of, boot_user, boot_game, boot_admin,
}
use online_game.Processes.Tokens.{boot-token, boot_user-unrevoked, boot_admin-open}

-- A database handle is the list of the tables that were migrated.
abbrev gorm : Gorm (List String)
gorm = record {
  open_source = λ source level. returns [];
  sql_db = λ p. none;
  set_max_open = λ n p. p;
  set_max_idle = λ n p. p;
  auto_migrate = λ tables p. (tables, none);
  close = λ p. none;
}

-- A Redis that answers a ping, or does not.
abbrev redis : Option String → GoRedis ℕ
redis answer = record {
  make_client = λ addr password db. 0;
  ping = λ r. answer;
  set_key = λ r key text ttl. (r, none);
  get_key = λ r key. fails "nil";
  del = λ r keys. (r, none);
  exists_keys = λ r key. returns 0;
  close = λ r. none;
}

abbrev listen : String → Option String
listen addr = none

abbrev getenv : String → String
getenv key = if key == "JWT_SECRET" then "k" else ""

abbrev atoi : String → Result String ℤ
atoi text = returns (pos 1)

abbrev manager : Option ℕ → JwtManager ℕ
manager client = record { secret = "k"; expiration = 100; redis = client }

unfoldable user_process : Option ℕ → Running (User.Service (List String) ℕ ℕ) ℕ
unfolding load server_of
user_process client = record {
  service = record {
    db = "User" ∷ "UserSession" ∷ [];
    jwt_manager = manager client;
    cache = client;
  };
  jwt_manager = manager client;
  http = server_of (load getenv atoi "user-service");
}

unfoldable game_process : Running (GameService.Service (List String) ℕ ℕ String) ℕ
unfolding load server_of new_gateway
game_process = record {
  service = record {
    db = "Game" ∷ "GameVersion" ∷ "GameRoom" ∷ "GameSession" ∷ "RoomPlayer" ∷ [];
    actor_system = record { actors = []; count = pos 0 };
    ws_gateway = new_gateway default_gateway_config;
    cache = some 0;
  };
  jwt_manager = manager (some 0);
  http = server_of (load getenv atoi "game-service");
}

boot-token_example :
    (token : String) × (generate_token Samples.tokens Samples.no_redis
        (λ t. t)
        10
        10
        (user_process (some 0)).jwt_manager
        1
        "ann"
        "player"
      ≡ returns (token, 110))
    × ((validate_token Samples.tokens Samples.no_redis (λ t. t) 50 game_process.jwt_manager token
          ≡ returns Samples.ann_claims)
        ⊎ (is_blacklisted Samples.tokens Samples.no_redis (λ t. t) 50 game_process.jwt_manager token
            ≡ returns true))
unfolding user_process game_process load new_database redis_of new_gateway boot_user boot_game
boot-token_example =
    boot-token gorm (redis none) atoi Samples.tokens Samples.no_redis (λ t. t) listen listen getenv
      getenv 100 100 (user_process (some 0)) game_process 10 10 50 1 "ann" "player" refl refl refl
      Samples.tokens-Laws (omega arith)

boot_user-unrevoked_example :
    let m = (user_process none).jwt_manager in
    (validate_token Samples.tokens Samples.no_redis (λ t. t) 50 m "k.ann"
      ≡ parse_token Samples.tokens Samples.no_redis (λ t. t) 50 m "k.ann")
    × (blacklist_token Samples.tokens Samples.no_redis (λ t. t) 50 m "k.ann" ≡ (m, blacklisted))
unfolding user_process load new_database redis_of boot_user
boot_user-unrevoked_example =
    boot_user-unrevoked gorm (redis (some "timeout")) atoi Samples.tokens Samples.no_redis (λ t. t)
      listen getenv 100 (user_process none) "timeout" 50 "k.ann" refl refl

abbrev paths : Admin.Paths
paths = record { base = λ p. p; dir = λ p. p; join = λ parts. concat parts; temp_dir = "tmp" }

abbrev refuses : String → Result String ℕ
refuses addr = fails "bad address"

boot_admin-open_example :
    (r : RunningAdmin (Admin.Service (List String) ℕ) ℕ) × (boot_admin gorm paths
        (λ path files. files)
        refuses
        getenv
        atoi
        3
      ≡ serves r)
    × (gated
          (admin_gate (Option.map (λ k token. fails "never asked") r.user_client) "")
          (λ name (n : ℕ). (n + 1, name))
          0
        ≡ (1, passed ""))
unfolding load new_database
boot_admin-open_example =
    boot_admin-open gorm paths (λ path files. files) refuses getenv atoi
      (λ k token. fails "never asked") 3 [] "bad address" (λ name n. (n + 1, name)) "" 0 refl refl

-- The game service with the small database of its own tests.
abbrev rows_gorm : Gorm Games.Rows
rows_gorm = record {
  open_source = λ source level. returns ([], []);
  sql_db = λ p. none;
  set_max_open = λ n p. p;
  set_max_idle = λ n p. p;
  auto_migrate = λ tables p. (p, none);
  close = λ p. none;
}

abbrev small_redis : GoRedis (List (String × String))
small_redis = record {
  make_client = λ addr password db. [];
  ping = λ r. none;
  set_key = λ r key text ttl. (r, none);
  get_key = λ r key. fails "nil";
  del = λ r keys. (r, none);
  exists_keys = λ r key. returns 0;
  close = λ r. none;
}

unfoldable opened_process :
    Running
      (GameService.Service Games.Rows (List (String × String)) ℕ String)
      (List (String × String))
unfolding load server_of Games.opening
opened_process = record {
  service = Games.opening;
  jwt_manager = record { secret = "k"; expiration = 100; redis = some [] };
  http = server_of (load getenv atoi "game-service");
}

boot_game-IsValid_example : IsValid (
    after (
      world_run Games.libs Games.marshal
        (λ n. "n")
        (creates 5 "r" "ann" "Ann" Games.request
          ∷ connects 6 "c1" "ann" "nnnnnnn" "r"
          ∷ closes 7 "r"
          ∷ disconnects "c1"
          ∷ [])
        opened_process.service))
unfolding opened_process Games.opening load new_database redis_of new_gateway boot_game lookup
    world_step insert new_base_actor world_run
boot_game-IsValid_example =
    boot_game-IsValid rows_gorm small_redis listen getenv atoi Games.libs Games.marshal (λ n. "n")
      100 opened_process
      (creates 5 "r" "ann" "Ann" Games.request
        ∷ connects 6 "c1" "ann" "nnnnnnn" "r"
        ∷ closes 7 "r"
        ∷ disconnects "c1"
        ∷ [])
      refl
      (
        tt,
        (
          refl,
          (
            tt,
            (
              tt,
              FreshAll-last Games.libs Games.marshal (λ n. "n")
                  (world_step Games.libs Games.marshal (λ n. "n") (disconnects "c1")
                    (after (
                      world_run Games.libs Games.marshal (λ n. "n")
                        (creates 5 "r" "ann" "Ann" Games.request
                          ∷ connects 6 "c1" "ann" "nnnnnnn" "r"
                          ∷ closes 7 "r"
                          ∷ [])
                        opened_process.service))),
            ),
          ),
        ),
      )
