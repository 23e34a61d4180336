-- ===== src/GameService.antt =====
-- internal/game/model.go, and what the game service is made of: the database and the cache, which
-- are parameters, the registry of room actors and the gateway.
pub mod Catalog
pub mod Rooms
pub mod Visits
pub mod Sockets
pub mod Http
pub mod Access
pub mod Grpc
pub mod Joining
pub mod Creation
pub mod Silent
pub mod Stale
pub mod World
pub mod Samples
mod Tests
use online_game.Prelude.{ℕ, String, Option, List}
use online_game.Prelude.Int.{ℤ}
use online_game.Prelude.Result.{Result}
use online_game.Actor.Message.{Message}
use online_game.Actor.Mailbox.{BaseActor}
use online_game.Actor.System.{ActorSystem}
use online_game.Actor.Game.{GameActor}
use online_game.Engine.{GojaEngine, Runtime}
use online_game.User.{QueryError}
use online_game.Websocket.Gateway.{Gateway}

pub record Game : Type 0 where
  pub id : ℕ
  pub game_code : String
  pub game_name : String
  pub game_type : String
  pub description : String
  pub game_icon : String
  pub game_cover : String
  pub min_players : ℤ
  pub max_players : ℤ
  pub status : String
  pub sort_order : ℤ
  pub config : String
  pub created_at : ℕ
  pub updated_at : ℕ
  pub deleted_at : Option ℕ

pub record GameVersion : Type 0 where
  pub id : ℕ
  pub game_id : ℕ
  pub version : String
  pub script_type : String
  pub package_path : String
  pub package_hash : String
  pub package_size : ℤ
  pub entry_script : String
  pub status : String
  pub created_at : ℕ
  pub created_by : ℕ

pub record GameRoom : Type 0 where
  pub id : ℕ
  pub room_id : String
  pub game_id : ℕ
  pub game_version : String
  pub room_name : String
  pub owner_id : String
  pub max_players : ℤ
  pub status : String
  pub config : String
  pub created_at : ℕ
  pub updated_at : ℕ
  pub closed_at : Option ℕ
  pub deleted_at : Option ℕ

pub record GameSession : Type 0 where
  pub id : ℕ
  pub room_id : String
  pub game_id : ℕ
  pub status : String
  pub start_time : ℕ
  pub end_time : Option ℕ
  pub duration : ℕ
  pub final_state : String
  pub results : String

pub record RoomPlayer : Type 0 where
  pub id : ℕ
  pub room_id : String
  pub player_id : String
  pub nickname : String
  pub seat_idx : ℤ
  pub status : String
  pub score : ℤ
  pub joined_at : ℕ
  pub left_at : Option ℕ

pub record CreateRoomRequest : Type 0 where
  pub game_id : ℕ
  pub room_name : String
  pub max_players : ℤ

pub record GameListQuery : Type 0 where
  pub game_type : String
  pub status : String
  pub search : String

-- The conditions of a query for games; "" stands for no condition.
pub record GameFilter : Type 0 where
  pub status : String
  pub game_type : String
  pub name_like : String

-- The queries on a database with contents `D`. Where the caller ignores the error of a write, only
-- the contents afterwards are given.
pub record Database (D : Type 0) : Type 0 where
  pub count_games : D → GameFilter → Result String ℕ
  pub find_games : D → GameFilter → ℕ → ℕ → Result String (List Game)
  pub first_game : D → ℕ → Result QueryError Game
  pub first_active_version : D → ℕ → Result QueryError GameVersion
  pub create_room : D → GameRoom → D × Result String GameRoom
  pub first_room : D → String → Result QueryError GameRoom
  pub count_open_rooms : D → ℕ → Result String ℕ
  pub find_open_rooms : D → ℕ → ℕ → ℕ → Result String (List GameRoom)
  pub save_room : D → GameRoom → D
  pub update_room_status : D → String → String → D
  pub create_session : D → GameSession → D
  pub first_running_session : D → String → Result QueryError GameSession
  pub save_session : D → GameSession → D
  pub create_player : D → RoomPlayer → D
  pub mark_left : D → String → String → ℕ → D
  pub players_in : D → String → List RoomPlayer

-- Redis as a cache: `Get`, `Set` with a time to live, `Scan` for a pattern and `Del`.
pub record Cache (C : Type 0) : Type 0 where
  pub get_key : C → String → Result String String
  pub set_key : C → String → String → ℕ → C
  pub scan : C → String → List String
  pub del : C → String → C

-- How a type is written to the cache and read back.
pub record Codec (T : Type 0) : Type 0 where
  pub marshal : T → Option String
  pub unmarshal : String → Option T

-- All that is not code of the repository; `number` is `%d`.
pub record Libraries (D C V : Type 0) : Type 0 where
  pub db : Database D
  pub cache : Cache C
  pub games : Codec Game
  pub versions : Codec GameVersion
  pub runtime : Runtime V
  pub number : ℕ → String

-- A room's actor: the mailbox of a game actor with a goja engine.
abbrev pub RoomActor : Type 0 → Type 0
RoomActor V = BaseActor Message (GameActor (GojaEngine V))

pub record Service (D C V B : Type 0) : Type 0 where
  pub db : D
  pub actor_system : ActorSystem (RoomActor V)
  pub ws_gateway : Gateway B
  pub cache : Option C
