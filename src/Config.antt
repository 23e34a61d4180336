-- ===== src/Config.antt =====
-- pkg/config/config.go. The environment is a function, "" for a variable that is not set, as
-- `os.Getenv` has it; `strconv.Atoi` is a parameter.
mod Ports
mod Tests
use online_game.Prelude.{String, Bool, Option, none, some, [], ◌∷◌, if◌then◌else◌}
use online_game.Prelude.Dict.{Dict, lookup}
use online_game.Prelude.Equality.{◌==◌, string_eq}
use online_game.Prelude.Int.{ℤ, pos}
use online_game.Prelude.Result.{Result, returns, fails}
use online_game.Prelude.Text.{concat}

pub record DatabaseConfig : Type 0 where
  pub host : String
  pub port : String
  pub user : String
  pub password : String
  pub db_name : String
  pub ssl_mode : String

pub record RedisConfig : Type 0 where
  pub host : String
  pub port : String
  pub password : String
  pub db : ℤ

pub record Config : Type 0 where
  pub service_name : String
  pub env : String
  pub host : String
  pub port : String
  pub grpc_port : String
  pub database : DatabaseConfig
  pub redis : RedisConfig
  pub log_level : String
  pub jwt_secret : String
  pub jwt_expiry_hours : ℤ

-- The tables of `defaultPort` and of `defaultGRPCPort`.
abbrev pub ports : Dict String String
ports =
    ("api-gateway", "8080")
    ∷ ("user-service", "8001")
    ∷ ("game-service", "8002")
    ∷ ("admin-service", "8003")
    ∷ []

abbrev pub grpc_ports : Dict String String
grpc_ports = ("user-service", "9001") ∷ ("game-service", "9002") ∷ ("admin-service", "9003") ∷ []

unfoldable pub default_port : String → String
unfolding lookup
default_port service_name = elim (lookup service_name ports) [ some p ↦ p | none ↦ "8000" ]

unfoldable pub default_grpc_port : String → String
unfolding lookup
default_grpc_port service_name = elim (lookup service_name grpc_ports) [
  | some p ↦ p
  | none ↦ "9000"
]

module _ (getenv : String → String) (atoi : String → Result String ℤ) where
  unfoldable pub env_or : String → String → String
  env_or key fallback = let v = getenv key in if v == "" then fallback else v

  abbrev number_or : ℤ → Result String ℤ → ℤ
  number_or fallback (returns n) = n
  number_or fallback (fails e) = fallback

  unfoldable pub env_or_int : String → ℤ → ℤ
  env_or_int key fallback =
      let v = getenv key in if v == "" then fallback else number_or fallback (atoi v)

  unfoldable pub load : String → Config
  unfolding env_or env_or_int default_port default_grpc_port
  load service_name = record {
    service_name = service_name;
    env = env_or "ENV" "development";
    host = env_or "HOST" "0.0.0.0";
    port = env_or "PORT" (default_port service_name);
    grpc_port = env_or "GRPC_PORT" (default_grpc_port service_name);
    database = record {
      host = env_or "DB_HOST" "localhost";
      port = env_or "DB_PORT" "5432";
      user = env_or "DB_USER" "postgres";
      password = env_or "DB_PASSWORD" "";
      db_name = env_or "DB_NAME" service_name;
      ssl_mode = env_or "DB_SSL_MODE" "disable";
    };
    redis = record {
      host = env_or "REDIS_HOST" "localhost";
      port = env_or "REDIS_PORT" "6379";
      password = env_or "REDIS_PASSWORD" "";
      db = pos 0;
    };
    log_level = env_or "LOG_LEVEL" "info";
    jwt_secret = env_or "JWT_SECRET" "change-me-in-production";
    jwt_expiry_hours = env_or_int "JWT_EXPIRY_HOURS" (pos 72);
  }

unfoldable pub is_development : Config → Bool
is_development c = c.env == "development"

unfoldable pub dsn : Config → String
dsn c = concat (
    "host=" ∷ c.database.host ∷ " port=" ∷ c.database.port ∷ " user=" ∷ c.database.user
    ∷ " password=" ∷ c.database.password ∷ " dbname=" ∷ c.database.db_name ∷ " sslmode="
    ∷ c.database.ssl_mode ∷ [])

unfoldable pub redis_addr : Config → String
redis_addr c = concat (c.redis.host ∷ ":" ∷ c.redis.port ∷ [])
