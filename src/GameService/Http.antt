-- ===== src/GameService/Http.antt =====
-- internal/game/handler.go: the HTTP handlers. The binding of a request (gin) gives the request or the
-- text of its error. The player's id and name are those that the middleware of cmd/game-service has
-- set from the token.
use online_game.Prelude.{ℕ, String, Option, none, some, List}
use online_game.Prelude.Equality.{string_eq}
use online_game.Prelude.Int.{pos}
use online_game.Prelude.Result.{Result, returns, fails}
use online_game.Prelude.Value.{Value, nil, str}
use online_game.Api.{Answer, error, created, success, success_with_message, paginated}
use online_game.Api.Error.{
  AppError, app, named, with_data, with_message, err_bad_request, err_room_not_found,
}
use online_game.Api.Pages.{Query, get_pagination}
use online_game.User.{QueryError}
use online_game.GameService.{
  Game, GameVersion, GameRoom, CreateRoomRequest, GameListQuery, Libraries, Service,
}
use online_game.GameService.Catalog as Catalog
use online_game.GameService.Rooms.{create_room}
use online_game.GameService.Visits as Visits

-- How rows are written as JSON, and `strconv.ParseUint` for 32 bits, whose number is there beside an
-- error too.
pub record Encoding : Type 0 where
  pub game : Game → Value
  pub games : List Game → Value
  pub version : GameVersion → Value
  pub room : GameRoom → Value
  pub rooms : List GameRoom → Value
  pub parse_uint : String → ℕ × Option String

-- The player of the request.
pub record Player : Type 0 where
  pub id : String
  pub nickname : String

pub record ActionRequest : Type 0 where
  pub action : String
  pub payload : Value

abbrev bad_request : String → Answer Value
unfolding with_data named error
bad_request e = error (app (with_data (str e) (named err_bad_request)))

abbrev room_answer : Encoding → Result QueryError GameRoom → Answer Value
unfolding success error named
room_answer json (returns room) = success (json.room room)
room_answer json (fails e) = error (app (named err_room_not_found))

module _ {D C V B : Type 0} (libs : Libraries D C V) (json : Encoding) where
  abbrev answered :
      {A : Type 0}
      → (A → Answer Value)
      → Service D C V B × Result AppError A
      → Service D C V B × Answer Value
  unfolding error
  answered f (s, returns a) = (s, f a)
  answered f (s, fails e) = (s, error (app e))

  abbrev done_or : Answer Value → Service D C V B × Option AppError → Service D C V B × Answer Value
  unfolding error
  done_or done (s, none) = (s, done)
  done_or done (s, some e) = (s, error (app e))

  unfoldable pub handle_list_games :
      Query → Query → GameListQuery → Service D C V B → Service D C V B × Answer Value
  unfolding answered get_pagination paginated Catalog.list_games
  handle_list_games page page_size query s =
      let (p, size) = get_pagination page page_size in
      answered (λ found. paginated (json.games found.0) (pos found.1) p size)
        (s, Catalog.list_games libs query p size s)

  unfoldable pub handle_get_game : String → Service D C V B → Service D C V B × Answer Value
  unfolding answered success error named with_message Catalog.get_game
  handle_get_game id s = elim (json.parse_uint id).1 [
    | some e ↦ (s, error (app (with_message "无效的游戏ID" (named err_bad_request))))
    | none ↦ answered (λ g. success (json.game g)) (Catalog.get_game libs (json.parse_uint id).0 s)
  ]

  unfoldable pub handle_get_latest_version :
      String → Service D C V B → Service D C V B × Answer Value
  unfolding answered success error named Catalog.get_latest_version
  handle_get_latest_version id s = elim (json.parse_uint id).1 [
    | some e ↦ (s, error (app (named err_bad_request)))
    | none ↦
        answered (λ v. success (json.version v))
          (Catalog.get_latest_version libs (json.parse_uint id).0 s)
  ]

  unfoldable pub handle_create_room :
      ℕ
      → String
      → Player
      → Result String CreateRoomRequest
      → Service D C V B
      → Service D C V B × Answer Value
  unfolding answered bad_request created create_room
  handle_create_room now room_id player (fails e) s = (s, bad_request e)
  handle_create_room now room_id player (returns req) s =
      answered (λ room. created (json.room room))
        (create_room libs now room_id player.id player.nickname req s)

  unfoldable pub handle_list_rooms :
      Query → Query → String → Service D C V B → Service D C V B × Answer Value
  unfolding answered get_pagination paginated Catalog.get_rooms
  handle_list_rooms page page_size game_id s =
      let (p, size) = get_pagination page page_size in
      answered (λ found. paginated (json.rooms found.0) (pos found.1) p size)
        (s, Catalog.get_rooms libs (json.parse_uint game_id).0 p size s)

  unfoldable pub handle_get_room : String → Service D C V B → Service D C V B × Answer Value
  unfolding room_answer
  handle_get_room room_id s = (s, room_answer json (libs.db.first_room s.db room_id))

  unfoldable pub handle_join_room :
      ℕ → String → Player → Service D C V B → Service D C V B × Answer Value
  unfolding done_or success_with_message Visits.join_room
  handle_join_room now room_id player s =
      done_or (success_with_message "加入房间成功" nil)
        (Visits.join_room libs now room_id player.id player.nickname s)

  unfoldable pub handle_leave_room :
      ℕ → String → Player → Service D C V B → Service D C V B × Answer Value
  unfolding done_or success_with_message Visits.leave_room
  handle_leave_room now room_id player s =
      done_or (success_with_message "离开房间成功" nil) (Visits.leave_room libs now room_id player.id s)

  unfoldable pub handle_start_game : ℕ → String → Service D C V B → Service D C V B × Answer Value
  unfolding done_or success_with_message Visits.start_game
  handle_start_game now room_id s =
      done_or (success_with_message "游戏开始" nil) (Visits.start_game libs now room_id s)

  unfoldable pub handle_action :
      ℕ
      → String
      → Player
      → Result String ActionRequest
      → Service D C V B
      → Service D C V B × Answer Value
  unfolding done_or bad_request success Visits.handle_player_action
  handle_action now room_id player (fails e) s = (s, bad_request e)
  handle_action now room_id player (returns req) s =
      done_or (success nil)
        (Visits.handle_player_action libs now room_id player.id req.action req.payload s)
