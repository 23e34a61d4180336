-- ===== src/GameService/Rooms.antt =====
-- internal/game/service.go: the life of a room. The calls of the registry that only return an error
-- to log are made for their effect. `now` is what the clock shows during a call.
use online_game.Prelude.{ℕ, String, false, Option, none, some, List, [], ◌∷◌, if◌then◌else◌}
use online_game.Prelude.Equality.{◌==◌, string_eq}
use online_game.Prelude.Int.{ℤ, pos, leb_ℤ}
use online_game.Prelude.Result.{Result, returns, fails}
use online_game.Prelude.Text.{concat}
use online_game.Prelude.Value.{nil}
use online_game.Api.Error.{AppError}
use online_game.Actor.Message.{MsgType, Payload, player_join_data, Message, new_message}
use online_game.Actor.Mailbox as Mailbox
use online_game.Actor.Mailbox.{BaseActor, SendError}
use online_game.Actor.System as System
use online_game.Actor.System.{Actor, SystemError}
use online_game.Actor.Game.{GameActorConfig}
use online_game.Actor.Game.Play.{new_game_actor, actor_id_of}
use online_game.Engine.{EngineConfig, default_sandbox_config, GojaEngine}
use online_game.Engine.Goja.{new_goja_engine, init, set_timer_callback}
use online_game.GameService.{Game, GameRoom, CreateRoomRequest, Libraries, RoomActor, Service}
use online_game.GameService.Catalog.{database_error, get_game}

-- A mailbox in the registry. How a `Stop` ends is not looked at by the service.
unfoldable pub mailbox : {V : Type 0} → Actor (RoomActor V) Message SendError
unfolding Mailbox.start Mailbox.send Mailbox.stop
mailbox = record {
  id = λ a. a.id;
  start = Mailbox.start;
  send = Mailbox.send;
  stop = λ timeout a. ((Mailbox.stop false a).0, none);
}

-- The text of an error of the registry; the inbox of a room holds 256 messages.
abbrev pub error_text : (ℕ → String) → String → SystemError SendError → String
error_text number to (SystemError.actor_not_found id) = concat ("actor not found: " ∷ id ∷ [])
error_text number to (SystemError.actor_exists id) = concat ("actor already exists: " ∷ id ∷ [])
error_text number to (SystemError.from_actor SendError.not_running) =
    concat ("actor " ∷ to ∷ ": not running" ∷ [])
error_text number to (SystemError.from_actor SendError.inbox_full) =
    concat ("actor " ∷ to ∷ ": inbox full (" ∷ number 256 ∷ ")" ∷ [])

abbrev pub join_payload : String → Payload
join_payload nickname =
    player_join_data (record { nickname = nickname; avatar = ""; metadata = nil })

abbrev pub new_room_row : Game → String → String → String → CreateRoomRequest → GameRoom
new_room_row game room_id player_id nickname req = record {
  id = 0;
  room_id = room_id;
  game_id = req.game_id;
  game_version = "";
  room_name =
      if req.room_name == ""
      then concat (game.game_name ∷ " - " ∷ nickname ∷ "的房间" ∷ [])
      else req.room_name;
  owner_id = player_id;
  max_players = if leb_ℤ req.max_players (pos 0) then game.max_players else req.max_players;
  status = "waiting";
  config = "";
  created_at = 0;
  updated_at = 0;
  closed_at = none;
  deleted_at = none;
}

module _ {D C V : Type 0} (libs : Libraries D C V) where
  -- `fmt.Sprintf("game:%d:%s", ...)`.
  unfoldable pub actor_id : ℕ → String → String
  unfolding actor_id_of
  actor_id game_id room_id = actor_id_of (libs.number game_id) room_id

  -- The engine of a room: initialised, and with a callback for timers. No script is loaded.
  unfoldable pub room_engine : ℕ → Game → String → GojaEngine V
  unfolding new_goja_engine init set_timer_callback
  room_engine now game room_id =
      let config : EngineConfig = record {
        game_id = libs.number game.id;
        room_id = room_id;
        game_code = game.game_code;
        version = "latest";
        script_path = "";
        max_memory = pos 0;
        timeout = pos 0;
        sandbox = default_sandbox_config;
      } in
      set_timer_callback (init libs.runtime now config new_goja_engine)

  -- The configuration of a room's actor in `createGameActor`.
  unfoldable pub room_cfg : ℕ → Game → String → ℤ → GameActorConfig (GojaEngine V)
  unfolding room_engine
  room_cfg now game room_id max_players = record {
    game_id = libs.number game.id;
    room_id = room_id;
    game_code = game.game_code;
    max_players = max_players;
    inbox_cap = pos 256;
    engine = some (room_engine now game room_id);
  }

  del_all : List String → C → C
  del_all [] c = c
  del_all (key ∷ keys) c = del_all keys (libs.cache.del c key)

  without_rooms : String → Option C → Option C
  unfolding del_all
  without_rooms game_id none = none
  without_rooms game_id (some c) =
      some (del_all (libs.cache.scan c (concat ("rooms:" ∷ game_id ∷ ":*" ∷ []))) c)

module _ {D C V B : Type 0} (libs : Libraries D C V) where
  -- `s.actorSystem.SendTo`, with the error.
  unfoldable pub tell_actor :
      String → Message → Service D C V B → Service D C V B × Option (SystemError SendError)
  unfolding System.send_to mailbox
  tell_actor id msg s =
      let (system, error) = System.send_to mailbox id msg s.actor_system in
      (record s { actor_system = system }, error)

  unfoldable pub create_game_actor :
      ℕ → Game → String → ℤ → Service D C V B → Service D C V B × Option (SystemError SendError)
  unfolding new_game_actor room_cfg System.register mailbox
  create_game_actor now game room_id max_players s =
      let actor = new_game_actor (room_cfg libs now game room_id max_players) now in
      let (system, error) = System.register mailbox actor s.actor_system in
      (record s { actor_system = system }, error)

  unfoldable pub invalidate_room_cache : String → Service D C V B → Service D C V B
  unfolding without_rooms
  invalidate_room_cache game_id s = record s { cache = without_rooms libs game_id s.cache }

  -- `CreateRoom` once the room's row is there: the errors of the registry are not returned.
  unfoldable pub open_room :
      ℕ → Game → String → String → String → CreateRoomRequest → Service D C V B → Service D C V B
  unfolding create_game_actor invalidate_room_cache tell_actor actor_id new_message
  open_room now game room_id player_id nickname req s =
      let row = new_room_row game room_id player_id nickname req in
      let with_actor = (create_game_actor now game room_id row.max_players s).0 in
      let fresh = invalidate_room_cache (libs.number req.game_id) with_actor in
      (tell_actor (actor_id libs req.game_id room_id)
        (new_message now MsgType.player_join player_id (join_payload nickname)) fresh).0

  unfoldable pub create_room_for :
      ℕ
      → String
      → String
      → String
      → CreateRoomRequest
      → Service D C V B
      → Result AppError Game
      → Service D C V B × Result AppError GameRoom
  unfolding open_room database_error
  create_room_for now room_id player_id nickname req s (fails e) = (s, fails e)
  create_room_for now room_id player_id nickname req s (returns game) =
      let (db, row) = libs.db.create_room s.db (new_room_row game room_id player_id nickname req) in
      elim row [
        | fails e ↦ (record s { db = db }, fails (database_error e))
        | returns room ↦
            (open_room now game room_id player_id nickname req (record s { db = db }), returns room)
      ]

  -- `room_id` is the new UUID.
  unfoldable pub create_room :
      ℕ
      → String
      → String
      → String
      → CreateRoomRequest
      → Service D C V B
      → Service D C V B × Result AppError GameRoom
  unfolding create_room_for get_game
  create_room now room_id player_id nickname req s =
      let (looked_up, game) = get_game libs req.game_id s in
      create_room_for now room_id player_id nickname req looked_up game
