-- ===== src/GameService/World.antt =====
-- The game service as a whole: the calls of internal/game/service.go, the messages and the ends of
-- connections (pkg/websocket), and the moves of the rooms' goroutines (pkg/actor), one at a time in
-- any order. What a room's handler sends reaches the gateway and the database at once, as its calls
-- of the adapters do.
pub mod Rooms
pub mod Moves
pub mod Calls
pub mod Histories
pub mod Arrivals
pub mod Owners
pub mod Lasting
mod Tests
use online_game.Prelude.{ℕ, zero, suc, String, Option, none, some, List, [], ◌∷◌, length}
use online_game.Prelude.Dict.{insert}
use online_game.Prelude.Equality.{string_eq}
use online_game.Prelude.Int.{ℤ}
use online_game.Prelude.Value.{Value}
use online_game.Actor.Message.{Message, Payload}
use online_game.Actor.Mailbox as Mailbox
use online_game.Actor.Mailbox.{Handler, Event}
use online_game.Actor.System as System
use online_game.Actor.Game.{Effect, Environment, GameActor}
use online_game.Actor.Game.Play.{handle_message}
use online_game.Engine.{GojaEngine}
use online_game.Engine.Goja.{engine_interface}
use online_game.Websocket.Gateway as Gateway
use online_game.Websocket.Gateway.{WsMessage, Outcome, done, panics}
use online_game.GameService.{CreateRoomRequest, Libraries, RoomActor, Service}
use online_game.GameService.Rooms.{mailbox, create_room}
use online_game.GameService.Visits.{
  join_room, leave_room, start_game, handle_player_action, close_room,
}
use online_game.GameService.Sockets.{
  handle_web_socket, route_ws_message, room_adapter, apply_effects,
}

-- What the runtime decides while a handler runs: the times, the order of map iterations, and how
-- long each hook takes.
pub record Runner (V : Type 0) : Type 0 where
  pub now : ℕ
  pub now_ms : ℕ
  pub env : Environment
  pub elapsed : String → List Payload → GojaEngine V → ℕ
  pub order : GojaEngine V → List ℕ

-- A timer of a script that fires is a move `sends` of its room.
pub data Step (V : Type 0) : Type 0 where
  creates : ℕ → String → String → String → CreateRoomRequest → Step V
  joins : ℕ → String → String → String → Step V
  leaves : ℕ → String → String → Step V
  starts : ℕ → String → Step V
  acts : ℕ → String → String → String → Value → Step V
  closes : ℕ → String → Step V
  connects : ℕ → String → String → String → String → Step V
  hears : ℕ → ℕ → String → String → WsMessage → Step V
  disconnects : String → Step V
  moves : Runner V → String → Event Message → Step V

-- What stands in a list after its first elements.
unfoldable pub after_first : {A : Type 0} → ℕ → List A → List A
after_first zero xs = xs
after_first (suc n) [] = []
after_first (suc n) (x ∷ xs) = after_first n xs

module _ {D C V : Type 0} (libs : Libraries D C V) (text : ℤ → String) where
  -- The handler of a room with the engine and the adapter that the service gives it.
  unfoldable pub room_handler : Runner V → D → Handler Message (GameActor (GojaEngine V))
  unfolding engine_interface room_adapter handle_message
  room_handler r db =
      handle_message
        (engine_interface libs.runtime (room_adapter libs db) libs.number text r.elapsed r.order)
        r.env

module _ {D C V B : Type 0} (libs : Libraries D C V) (marshal : WsMessage → B)
    (text : ℤ → String) where
  -- A room's actor after a move, in the registry, and what it has told the adapters meanwhile.
  unfoldable pub moved :
      Runner V → String → RoomActor V → Option (RoomActor V) → Service D C V B → Service D C V B
  unfolding insert apply_effects
  moved r id old none s = s
  moved r id old (some new) s =
      apply_effects libs marshal r.now r.now_ms
        (after_first (length old.state.effects) new.state.effects)
        (record s {
          actor_system = record s.actor_system { actors = insert id new s.actor_system.actors };
        })

  unfoldable pub move : Runner V → String → Event Message → Service D C V B → Service D C V B
  unfolding moved System.get mailbox Mailbox.step room_handler
  move r id e s = elim (System.get mailbox id s.actor_system) [
    | none ↦ s
    | some a ↦ moved r id a (Mailbox.step (room_handler libs text r s.db) e a) s
  ]

  abbrev pub with_gateway :
      Service D C V B → Outcome (Gateway.Gateway B) → Outcome (Service D C V B)
  with_gateway s (done g) = done (record s { ws_gateway = g })
  with_gateway s (panics g) = panics (record s { ws_gateway = g })

  -- The end of a connection, in the deferred call of `ReadPump`: no one recovers its panic.
  abbrev disconnected : String → Service D C V B → Outcome (Service D C V B)
  unfolding Gateway.unregister
  disconnected conn_id s = with_gateway s (Gateway.unregister conn_id s.ws_gateway)

  -- `panics`: the process has ended.
  unfoldable pub world_step : Step V → Service D C V B → Outcome (Service D C V B)
  unfolding create_room join_room leave_room start_game handle_player_action close_room
      handle_web_socket route_ws_message disconnected move
  world_step (creates now room_id player nickname req) s =
      done (create_room libs now room_id player nickname req s).0
  world_step (joins now room_id player nickname) s =
      done (join_room libs now room_id player nickname s).0
  world_step (leaves now room_id player) s = done (leave_room libs now room_id player s).0
  world_step (starts now room_id) s = done (start_game libs now room_id s).0
  world_step (acts now room_id player action details) s =
      done (handle_player_action libs now room_id player action details s).0
  world_step (closes now room_id) s = done (close_room libs now room_id s).0
  world_step (connects now_ms conn_id player game_id room_id) s =
      done (handle_web_socket libs marshal now_ms conn_id player game_id room_id s).0
  world_step (hears now now_ms actor_id player msg) s =
      done (route_ws_message libs marshal now now_ms actor_id player msg s)
  world_step (disconnects conn_id) s = disconnected conn_id s
  world_step (moves r id e) s = done (move r id e s)

  abbrev pub then_run :
      (Service D C V B → Outcome (Service D C V B))
      → Outcome (Service D C V B)
      → Outcome (Service D C V B)
  then_run k (done s) = k s
  then_run k (panics s) = panics s

  -- Steps one after the other, until one ends the process.
  unfoldable pub world_run : List (Step V) → Service D C V B → Outcome (Service D C V B)
  unfolding world_step
  world_run [] s = done s
  world_run (e ∷ es) s = then_run (world_run es) (world_step e s)
