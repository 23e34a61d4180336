-- ===== src/GameService/Visits.antt =====
-- internal/game/service.go: what players do in a room, and the end of a room. Each call looks the
-- room up in the database and sends a message to the room's actor.
use online_game.Prelude.{ℕ, String, Option, none, some, if◌then◌else◌}
use online_game.Prelude.Equality.{◌==◌, string_eq}
use online_game.Prelude.Int.{pos}
use online_game.Prelude.Result.{returns, fails}
use online_game.Prelude.Value.{Value, nil, str}
use online_game.Api.Error.{
  AppError, named, with_data, with_message, err_internal_server, err_room_not_found,
  err_room_not_joinable, err_game_running,
}
use online_game.Actor.Message.{MsgType, player_leave_data, value, new_message, action_message}
use online_game.Actor.Mailbox.{SendError}
use online_game.Actor.System.{SystemError}
use online_game.GameService.{GameRoom, GameSession, RoomPlayer, Libraries, Service}
use online_game.GameService.Catalog.{missing_or}
use online_game.GameService.Rooms.{actor_id, tell_actor, join_payload, error_text}

-- The rows that are created; the database fills in the rest.
abbrev pub player_row : ℕ → String → String → String → RoomPlayer
player_row now room_id player_id nickname = record {
  id = 0;
  room_id = room_id;
  player_id = player_id;
  nickname = nickname;
  seat_idx = pos 0;
  status = "waiting";
  score = pos 0;
  joined_at = now;
  left_at = none;
}

abbrev pub session_row : ℕ → GameRoom → String → GameSession
session_row now room room_id = record {
  id = 0;
  room_id = room_id;
  game_id = room.game_id;
  status = "running";
  start_time = now;
  end_time = none;
  duration = 0;
  final_state = "";
  results = "";
}

module _ {D C V B : Type 0} (libs : Libraries D C V) where
  -- Go's nil or error as an option.
  abbrev refused : Service D C V B → AppError → Service D C V B × Option AppError
  refused s e = (s, some e)

  -- A message that must reach its actor, and what is done then.
  unfoldable pub sent_then :
      String
      → (Service D C V B → Service D C V B)
      → Service D C V B × Option (SystemError SendError)
      → Service D C V B × Option AppError
  unfolding with_data named
  sent_then to k (s, none) = (k s, none)
  sent_then to k (s, some e) =
      (s, some (with_data (str (error_text libs.number to e)) (named err_internal_server)))

  unfoldable pub join_found :
      ℕ → String → String → String → Service D C V B → GameRoom → Service D C V B × Option AppError
  unfolding sent_then tell_actor actor_id new_message named with_message
  join_found now room_id player_id nickname s room =
      if room.status == "closed"
      then refused s (named err_room_not_joinable)
      else if room.status == "playing"
      then refused s (with_message "游戏进行中，无法加入" (named err_game_running))
      else sent_then (actor_id libs room.game_id room_id)
          (λ s'. record s' {
            db = libs.db.create_player s'.db (player_row now room_id player_id nickname);
          })
          (tell_actor libs (actor_id libs room.game_id room_id)
            (new_message now MsgType.player_join player_id (join_payload nickname)) s)

  unfoldable pub join_room :
      ℕ → String → String → String → Service D C V B → Service D C V B × Option AppError
  unfolding join_found missing_or named
  join_room now room_id player_id nickname s = elim (libs.db.first_room s.db room_id) [
    | fails e ↦ refused s (missing_or (named err_room_not_found) e)
    | returns room ↦ join_found now room_id player_id nickname s room
  ]

  -- The other calls answer every failure of the look-up with the same error.
  unfoldable pub leave_room :
      ℕ → String → String → Service D C V B → Service D C V B × Option AppError
  unfolding tell_actor actor_id new_message named
  leave_room now room_id player_id s = elim (libs.db.first_room s.db room_id) [
    | fails e ↦ refused s (named err_room_not_found)
    | returns room ↦
        let told =
          (tell_actor libs (actor_id libs room.game_id room_id)
            (new_message now MsgType.player_leave player_id
              (player_leave_data (record { reason = "voluntary" })))
            s).0 in
        (record told { db = libs.db.mark_left told.db room_id player_id now }, none)
  ]

  unfoldable pub start_game : ℕ → String → Service D C V B → Service D C V B × Option AppError
  unfolding sent_then tell_actor actor_id new_message named
  start_game now room_id s = elim (libs.db.first_room s.db room_id) [
    | fails e ↦ refused s (named err_room_not_found)
    | returns room ↦
        sent_then (actor_id libs room.game_id room_id)
          (λ s'. record s' { db = libs.db.create_session s'.db (session_row now room room_id) })
          (tell_actor libs (actor_id libs room.game_id room_id)
            (new_message now MsgType.game_start "" (value nil)) s)
  ]

  unfoldable pub handle_player_action :
      ℕ → String → String → String → Value → Service D C V B → Service D C V B × Option AppError
  unfolding sent_then tell_actor actor_id action_message named
  handle_player_action now room_id player_id action details s =
      elim (libs.db.first_room s.db room_id) [
        | fails e ↦ refused s (named err_room_not_found)
        | returns room ↦
            sent_then (actor_id libs room.game_id room_id) (λ s'. s')
              (tell_actor libs (actor_id libs room.game_id room_id)
                (action_message now player_id action details) s)
      ]

  unfoldable pub close_room : ℕ → String → Service D C V B → Service D C V B × Option AppError
  unfolding tell_actor actor_id new_message named
  close_room now room_id s = elim (libs.db.first_room s.db room_id) [
    | fails e ↦ refused s (named err_room_not_found)
    | returns room ↦
        let told =
          (tell_actor libs (actor_id libs room.game_id room_id)
            (new_message now MsgType.shutdown "" (value nil)) s).0 in
        (
          record told {
            db =
                libs.db.save_room told.db (record room { status = "closed"; closed_at = some now });
          },
          none,
        )
  ]
