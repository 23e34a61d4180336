-- ===== src/Config/Tests.antt =====
-- The configuration with an empty environment.
use online_game.Prelude.{String, ◌≡◌, refl}
use online_game.Prelude.Int.{ℤ}
use online_game.Prelude.Result.{Result, fails}
use online_game.Config.{load, dsn, env_or}

abbrev nothing_set : String → String
nothing_set key = ""

abbrev no_number : String → Result String ℤ
no_number text = fails "invalid syntax"

admin_dsn :
    dsn (load nothing_set no_number "admin-service")
    ≡ "host=localhost port=5432 user=postgres password= dbname=admin-service sslmode=disable"
unfolding load dsn env_or
admin_dsn = refl

abbrev users : String
users = "user-service"
