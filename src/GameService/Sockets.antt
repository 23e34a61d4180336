-- ===== src/GameService/Sockets.antt =====
-- internal/game/service.go: messages of WebSocket connections, and the adapters through which a
-- room's actor reaches the gateway and the database. The types of messages are those of
-- pkg/websocket/gateway.go.
use online_game.Prelude.{ℕ, ◌-◌, ◌/◌, String, Option, none, some, List, [], ◌∷◌, map, if◌then◌else◌}
use online_game.Prelude.Equality.{◌==◌, string_eq}
use online_game.Prelude.Int.{pos}
use online_game.Prelude.Result.{Result, returns, fails}
use online_game.Prelude.Value.{Value, nil, int, str, object, as_string, value_at}
use online_game.Actor.Message.{MsgType, value, new_message, action_message}
use online_game.Actor.System as System
use online_game.Actor.Game.{Effect}
use online_game.Engine.{RoomAdapter}
use online_game.Websocket.Gateway as Gateway
use online_game.Websocket.Gateway.{WsMessage}
use online_game.User.{QueryError}
use online_game.GameService.{GameRoom, GameSession, Libraries, Service}
use online_game.Actor.Game.Play.{actor_id_of}
use online_game.GameService.Rooms.{mailbox, tell_actor}

-- `gormRoomAdapter` for scripts.
abbrev room_config : Result QueryError GameRoom → Value
room_config (fails e) = object []
room_config (returns room) = object (
    ("roomID", str room.room_id)
    ∷ ("maxPlayers", int room.max_players)
    ∷ ("gameID", int (pos room.game_id))
    ∷ [])

module _ {D C V : Type 0} (libs : Libraries D C V) where
  unfoldable pub room_adapter : D → RoomAdapter
  room_adapter db = record {
    get_player_ids = λ room_id. map (λ p. p.player_id) (libs.db.players_in db room_id);
    get_config = λ room_id. room_config (libs.db.first_room db room_id);
  }

module _ {D C V B : Type 0} (libs : Libraries D C V) (marshal : WsMessage → B) where
  abbrev pub chat_data : String → String → Value
  chat_data player_id message = object (("from", str player_id) ∷ ("message", str message) ∷ [])

  -- `now` in nanoseconds for the actor and `now_ms` in milliseconds for the gateway.
  unfoldable pub route_ws_message :
      ℕ → ℕ → String → String → WsMessage → Service D C V B → Service D C V B
  unfolding tell_actor action_message new_message Gateway.broadcast_to_room value_at as_string
  route_ws_message now now_ms actor_id player_id msg s =
      if msg.kind == "action"
      then (tell_actor libs actor_id
          (action_message now player_id (as_string (value_at "action" msg.payload))
            (value_at "data" msg.payload))
          s).0
      else if msg.kind == "ready"
      then (tell_actor libs actor_id (new_message now MsgType.player_ready player_id (value nil))
          s).0
      else if msg.kind == "chat"
      then record s {
        ws_gateway =
            Gateway.broadcast_to_room marshal now_ms "" "chat"
              (chat_data player_id (as_string (value_at "message" msg.payload))) s.ws_gateway;
      }
      else s

  -- What `HandleWebSocket` does: it answers 404, or hands the request to the gateway, which upgrades
  -- it. The messages of the connection then go to `route_ws_message` with the same actor.
  unfoldable pub handle_web_socket :
      ℕ → String → String → String → String → Service D C V B → Service D C V B × Option ℕ
  unfolding System.get Gateway.serve_ws actor_id_of
  handle_web_socket now_ms conn_id player_id game_id room_id s =
      elim (System.get mailbox (actor_id_of game_id room_id) s.actor_system) [
        | none ↦ (s, some 404)
        | some actor ↦ (
          record s {
            ws_gateway = Gateway.serve_ws marshal now_ms conn_id player_id room_id s.ws_gateway;
          },
          none,
        )
      ]

  -- `Duration` is in whole seconds. The results themselves are not stored.
  record_results : ℕ → Result QueryError GameSession → D → D
  record_results now (fails e) db = db
  record_results now (returns session) db = libs.db.save_session db (record session {
    status = "completed";
    end_time = some now;
    duration = (now - session.start_time) / 1000000000;
  })

  -- A call that the actor or the engine makes of `wsHubAdapter` or of `gormRoomAdapter`.
  unfoldable pub apply_effect : ℕ → ℕ → Effect → Service D C V B → Service D C V B
  unfolding Gateway.broadcast_to_room Gateway.send_to Gateway.send_except record_results
  apply_effect now now_ms (Effect.broadcast_to_room room_id event details) s = record s {
    ws_gateway = Gateway.broadcast_to_room marshal now_ms room_id event details s.ws_gateway;
  }
  apply_effect now now_ms (Effect.send_to player_id event details) s = record s {
    ws_gateway = Gateway.send_to marshal now_ms player_id event details s.ws_gateway;
  }
  apply_effect now now_ms (Effect.send_except room_id except event details) s = record s {
    ws_gateway = Gateway.send_except marshal now_ms room_id except event details s.ws_gateway;
  }
  apply_effect now now_ms (Effect.update_room_status room_id status) s = record s {
    db = libs.db.update_room_status s.db room_id status;
  }
  apply_effect now now_ms (Effect.record_game_results room_id results) s = record s {
    db = record_results now (libs.db.first_running_session s.db room_id) s.db;
  }

  unfoldable pub apply_effects : ℕ → ℕ → List Effect → Service D C V B → Service D C V B
  unfolding apply_effect
  apply_effects now now_ms [] s = s
  apply_effects now now_ms (e ∷ es) s = apply_effects now now_ms es (apply_effect now now_ms e s)
