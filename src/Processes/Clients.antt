-- ===== src/Processes/Clients.antt =====
-- pkg/db/db.go, pkg/redis/redis.go and pkg/grpc: what the repository adds to gorm, go-redis and grpc,
-- which are parameters. An error that a call returns is `some`, nil is `none`.
use online_game.Prelude.{
  ℕ, String, Bool, false, Option, none, some, List, [], ◌∷◌, ltb, if◌then◌else◌,
}
use online_game.Prelude.Equality.{◌==◌, string_eq}
use online_game.Prelude.Int.{ℤ}
use online_game.Prelude.Result.{Result, returns, fails}
use online_game.Prelude.Text.{concat}
use online_game.Config.{DatabaseConfig, RedisConfig}

pub data LogLevel : Type 0 where
  warn info : LogLevel

-- `gorm.Open` of a data source, `DB()`, the setters of the numbers of open and of idle connections, and
-- `AutoMigrate` and `Close`.
pub record Gorm (P : Type 0) : Type 0 where
  pub open_source : String → LogLevel → Result String P
  pub sql_db : P → Option String
  pub set_max_open : ℕ → P → P
  pub set_max_idle : ℕ → P → P
  pub auto_migrate : List String → P → P × Option String
  pub close : P → Option String

-- `goredis.NewClient` of an address, a password and a database, and the commands on the client.
pub record GoRedis (R : Type 0) : Type 0 where
  pub make_client : String → String → ℤ → R
  pub ping : R → Option String
  pub set_key : R → String → String → ℕ → R × Option String
  pub get_key : R → String → Result String String
  pub del : R → List String → R × Option String
  pub exists_keys : R → String → Result String ℕ
  pub close : R → Option String

abbrev prefixed : {A : Type 0} → String → Result String A → Result String A
prefixed text (returns a) = returns a
prefixed text (fails e) = fails (concat (text ∷ e ∷ []))

module _ {P : Type 0} (gorm : Gorm P) where
  unfoldable pub data_source : DatabaseConfig → String
  data_source cfg = concat (
      "host=" ∷ cfg.host ∷ " port=" ∷ cfg.port ∷ " user=" ∷ cfg.user ∷ " password=" ∷ cfg.password
      ∷ " dbname=" ∷ cfg.db_name ∷ " sslmode=" ∷ cfg.ssl_mode ∷ [])

  abbrev with_pool : Option String → P → Result String P
  with_pool (some e) p = fails (concat ("get sql.DB: " ∷ e ∷ []))
  with_pool none p = returns (gorm.set_max_idle 10 (gorm.set_max_open 25 p))

  -- `db.New`.
  unfoldable pub new_database : DatabaseConfig → Result String P
  unfolding data_source
  new_database cfg =
      elim (gorm.open_source (data_source cfg) (if cfg.ssl_mode == "" then info else warn)) [
        | fails e ↦ fails (concat ("connect database: " ∷ e ∷ []))
        | returns p ↦ with_pool (gorm.sql_db p) p
      ]

  -- `db.Close`.
  unfoldable close_database : P → Option String
  close_database p = elim (gorm.sql_db p) [ some e ↦ some e | none ↦ gorm.close p ]

module _ {R : Type 0} (redis : GoRedis R) where
  unfoldable pub new_client : RedisConfig → R
  new_client cfg = redis.make_client (concat (cfg.host ∷ ":" ∷ cfg.port ∷ [])) cfg.password cfg.db

  unfoldable pub health : R → Option String
  health r = redis.ping r

  unfoldable close_client : Option R → Option String
  close_client none = none
  close_client (some r) = redis.close r

  abbrev now_has : R × Option String → Option R × Option String
  now_has (r, e) = (some r, e)

  unfoldable set_json : Option R → String → String → ℕ → Option R × Option String
  set_json none key text ttl = (none, none)
  set_json (some r) key text ttl = now_has (redis.set_key r key text ttl)

  unfoldable get_cached : Option R → String → Result String String
  get_cached none key = fails "no redis client"
  get_cached (some r) key = redis.get_key r key

  unfoldable delete_keys : Option R → List String → Option R × Option String
  delete_keys none keys = (none, none)
  delete_keys (some r) keys = now_has (redis.del r keys)

  abbrev is_positive : Result String ℕ → Result String Bool
  is_positive (returns n) = returns (ltb 0 n)
  is_positive (fails e) = fails e

  -- On an error `Exists` also returns false, which no caller may use.
  unfoldable pub exists_key : Option R → String → Result String Bool
  exists_key none key = returns false
  exists_key (some r) key = is_positive (redis.exists_keys r key)

-- `grpc.NewClient` of an address.
module _ {K : Type 0} (dial : String → Result String K) where
  unfoldable pub new_user_service_client : String → Result String K
  new_user_service_client addr =
      prefixed (concat ("dial user-service " ∷ addr ∷ ": " ∷ [])) (dial addr)

  unfoldable new_game_service_client : String → Result String K
  new_game_service_client addr =
      prefixed (concat ("dial game-service " ∷ addr ∷ ": " ∷ [])) (dial addr)

-- `StartServer`, with the error of `net.Listen`; the server then serves on its own goroutine.
unfoldable pub start_server : (String → Option String) → String → Option String
start_server listen addr = elim (listen addr) [
  | none ↦ none
  | some e ↦ some (concat ("grpc listen " ∷ addr ∷ ": " ∷ e ∷ []))
]
