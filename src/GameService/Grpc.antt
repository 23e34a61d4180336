-- ===== src/GameService/Grpc.antt =====
-- internal/game/grpc.go: the game service over gRPC. An id is the same 64 bits as `uint` and as
-- `int64`; `int32` keeps the lower bits.
use online_game.Prelude.{ℕ, ◌-◌, ◌%◌, ◌^◌, String, List, map, ltb, if◌then◌else◌}
use online_game.Prelude.Int.{ℤ, pos, negsuc}
use online_game.Prelude.Result.{Result, returns, fails}
use online_game.Api.Error.{AppError}
use online_game.User.{QueryError}
use online_game.GameService.{Game, GameRoom, GameListQuery, Libraries, Service}
use online_game.GameService.Catalog as Catalog

-- The messages of proto/game, with the fields that are used. The numbers of players and of the page
-- are 32 bits.
pub record GameResponse : Type 0 where
  pub id : ℕ
  pub game_code : String
  pub game_name : String
  pub game_type : String
  pub min_players : ℕ
  pub max_players : ℕ
  pub status : String
  pub description : String

pub record RoomResponse : Type 0 where
  pub id : ℕ
  pub room_id : String
  pub game_id : ℕ
  pub room_name : String
  pub owner_id : String
  pub max_players : ℕ
  pub status : String

pub record ListGamesRequest : Type 0 where
  pub status : String
  pub game_type : String
  pub search : String
  pub page : ℤ
  pub page_size : ℤ

-- The lower 32 bits of an `int`.
abbrev pub int32_bits : ℤ → ℕ
int32_bits (pos n) = n % 2 ^ 32
int32_bits (negsuc n) = 2 ^ 32 - 1 - n % 2 ^ 32

-- A number from 1 on, or another for what is not.
abbrev pub at_least_one : ℕ → ℤ → ℕ
at_least_one default (pos n) = if ltb 0 n then n else default
at_least_one default (negsuc n) = default

unfoldable pub game_response : Game → GameResponse
game_response game = record {
  id = game.id;
  game_code = game.game_code;
  game_name = game.game_name;
  game_type = game.game_type;
  min_players = int32_bits game.min_players;
  max_players = int32_bits game.max_players;
  status = game.status;
  description = game.description;
}

unfoldable pub room_response : GameRoom → RoomResponse
room_response room = record {
  id = room.id;
  room_id = room.room_id;
  game_id = room.game_id;
  room_name = room.room_name;
  owner_id = room.owner_id;
  max_players = int32_bits room.max_players;
  status = room.status;
}

abbrev responded : {S A R : Type 0} → (A → R) → S × Result AppError A → S × Result AppError R
responded f (s, returns a) = (s, returns (f a))
responded f (s, fails e) = (s, fails e)

-- An error of the database is returned as it is.
abbrev room_found : Result QueryError GameRoom → Result QueryError RoomResponse
unfolding room_response
room_found (returns room) = returns (room_response room)
room_found (fails e) = fails e

module _ {D C V B : Type 0} (libs : Libraries D C V) where
  unfoldable pub grpc_get_game :
      ℕ → Service D C V B → Service D C V B × Result AppError GameResponse
  unfolding Catalog.get_game game_response
  grpc_get_game game_id s = responded game_response (Catalog.get_game libs game_id s)

  -- The games and their total.
  unfoldable pub grpc_list_games :
      ListGamesRequest → Service D C V B → Service D C V B × Result AppError (List GameResponse × ℕ)
  unfolding Catalog.list_games game_response
  grpc_list_games req s =
      let query : GameListQuery = record {
        game_type = req.game_type;
        status = req.status;
        search = req.search;
      } in
      responded (λ found. (map game_response found.0, found.1))
        (
          s,
          Catalog.list_games libs query (at_least_one 1 req.page) (at_least_one 20 req.page_size) s,
        )

  unfoldable pub grpc_get_room : String → Service D C V B → Result QueryError RoomResponse
  unfolding room_found
  grpc_get_room room_id s = room_found (libs.db.first_room s.db room_id)
