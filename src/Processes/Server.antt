-- ===== src/Processes/Server.antt =====
-- internal/server/server.go: the HTTP server of a process. gin and net/http are parameters.
use online_game.Prelude.{ℕ, String, Option, none, some, [], ◌∷◌, if◌then◌else◌}
use online_game.Prelude.Equality.{◌==◌, string_eq}
use online_game.Prelude.Text.{concat}

pub record ServerConfig : Type 0 where
  pub host : String
  pub port : String
  pub env : String

pub data Mode : Type 0 where
  release debug : Mode

-- `srv` is nil until the server is started; then it listens on an address.
pub record Server : Type 0 where
  pub cfg : ServerConfig
  pub mode : Mode
  pub srv : Option String

-- How `ListenAndServe` ends: with `http.ErrServerClosed` or with another error.
pub data Ended : Type 0 where
  server_closed : Ended
  listen_failed : String → Ended

unfoldable pub new_server : ServerConfig → Server
new_server cfg = record {
  cfg = cfg;
  mode = if cfg.env == "production" then release else debug;
  srv = none;
}

unfoldable pub addr : Server → String
addr s = concat (s.cfg.host ∷ ":" ∷ s.cfg.port ∷ [])

-- The server, and the error that `Start` returns.
unfoldable pub start : (String → Ended) → Server → Server × Option String
unfolding addr
start listen_and_serve s = (
  record s { srv = some (addr s) },
  elim (listen_and_serve (addr s)) [
    | server_closed ↦ none
    | listen_failed e ↦ some (concat ("listen: " ∷ e ∷ []))
  ],
)

-- What `WaitForShutdown` does after a signal: the time that `Shutdown` is given, in nanoseconds, if
-- there is a server.
unfoldable wait_for_shutdown : Server → Option ℕ
wait_for_shutdown s = elim s.srv [ some address ↦ some 30000000000 | none ↦ none ]
