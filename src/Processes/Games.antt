-- ===== src/Processes/Games.antt =====
-- The game service of cmd/game-service from its start on.
use online_game.Prelude.{ℕ, String, ◌≡◌, sym, Option, List, arith}
use mathlib.Core.Path.{subst}
use online_game.Prelude.Int.{ℤ}
use online_game.Prelude.Result.{Result}
use online_game.Websocket.Gateway.{WsMessage, after, default_gateway_config}
use online_game.GameService as GameService
use online_game.GameService.World.{Step, world_run}
use online_game.GameService.World.Moves.{IsValid}
use online_game.GameService.World.Calls.{FreshAll}
use online_game.GameService.World.Histories.{new_world, world_run-IsValid}
use online_game.Processes.Clients.{Gorm, GoRedis, start_server}
use online_game.Processes.Boot.{
  Running, serves, boot_grpc, boot_game, migrate_game, new_game_service,
}

module _ {P R V B : Type 0} (gorm : Gorm P) (redis : GoRedis R) (listen : String → Option String)
    (getenv : String → String) (atoi : String → Result String ℤ) where
  -- A game service that serves begins with no rooms and no connections.
  boot_game-new_world :
      (expiration : ℕ) (g : Running (GameService.Service P R V B) R)
      → boot_game gorm redis listen getenv atoi expiration ≡ serves g
      → g.service ≡ new_world g.service.db g.service.cache default_gateway_config
  unfolding boot_game boot_grpc start_server migrate_game new_game_service new_world
  boot_game-new_world expiration g up = ground arith

  -- From the start of a game service that serves, after any calls, messages of connections, ends of
  -- connections and moves of the rooms' goroutines in any order, up to a panic of `Unregister` that
  -- ends the process and also there, if the UUID of each new connection is
  -- not in use: the registry counts its rooms and files each once, under the id made of its own game
  -- and room; every room's inbox is within its capacity and its running flag true to its goroutine, no
  -- room seats more players than it may or anybody twice, and a room with players is owned by one of
  -- them; and the gateway's registries are in order.
  pub boot_game-IsValid :
      (libs : GameService.Libraries P R V) (marshal : WsMessage → B) (text : ℤ → String)
      (expiration : ℕ) (g : Running (GameService.Service P R V B) R) (es : List (Step V))
      → boot_game gorm redis listen getenv atoi expiration ≡ serves g
      → FreshAll libs marshal text es g.service
      → IsValid (after (world_run libs marshal text es g.service))
  boot_game-IsValid libs marshal text expiration g es up fresh =
      let new = boot_game-new_world expiration g up in
      subst (λ s. IsValid (after (world_run libs marshal text es s))) (sym new)
        (world_run-IsValid libs marshal text g.service.db g.service.cache default_gateway_config es
          (subst (FreshAll libs marshal text es) new fresh))
