-- ===== src/GameService/Samples.antt =====
-- A small database, cache and service for the tests of the game service.
use online_game.Prelude.{
  ℕ, zero, suc, String, Option, none, some, List, [], ◌∷◌, nat_beq, if◌then◌else◌,
}
use online_game.Prelude.Dict.{lookup, insert, delete}
use online_game.Prelude.Equality.{◌==◌, string_eq}
use online_game.Prelude.Int.{pos}
use online_game.Prelude.Result.{Result, returns, fails}
use online_game.Prelude.Value.{nil}
use online_game.Engine.{Runtime, finished}
use online_game.User.{QueryError, record_not_found}
use online_game.Websocket.Gateway.{WsMessage, new_gateway, default_gateway_config}
use online_game.GameService.{
  Game, GameRoom, RoomPlayer, CreateRoomRequest, Database, Cache, Libraries, Service,
}
use online_game.GameService.Rooms.{create_room, new_room_row}

abbrev pub blackjack : Game
blackjack = record {
  id = 7;
  game_code = "bj";
  game_name = "Blackjack";
  game_type = "realtime";
  description = "";
  game_icon = "";
  game_cover = "";
  min_players = pos 2;
  max_players = pos 4;
  status = "published";
  sort_order = pos 0;
  config = "";
  created_at = 1;
  updated_at = 1;
  deleted_at = none;
}

abbrev pub Rows : Type 0
Rows = List GameRoom × List RoomPlayer

abbrev pub row_of : String → List GameRoom → Result QueryError GameRoom
row_of room_id [] = fails record_not_found
row_of room_id (r ∷ rooms) = if r.room_id == room_id then returns r else row_of room_id rooms

abbrev pub small_db : Database Rows
small_db = record {
  count_games = λ d f. returns 1;
  find_games = λ d f offset limit. returns (blackjack ∷ []);
  first_game = λ d id. if nat_beq id 7 then returns blackjack else fails record_not_found;
  first_active_version = λ d id. fails record_not_found;
  create_room = λ d r. ((r ∷ d.0, d.1), returns r);
  first_room = λ d room_id. row_of room_id d.0;
  count_open_rooms = λ d id. returns 0;
  find_open_rooms = λ d id offset limit. returns d.0;
  save_room = λ d r. (r ∷ d.0, d.1);
  update_room_status = λ d room_id status. d;
  create_session = λ d session. d;
  first_running_session = λ d room_id. fails record_not_found;
  save_session = λ d session. d;
  create_player = λ d p. (d.0, p ∷ d.1);
  mark_left = λ d room_id player_id now. d;
  players_in = λ d room_id. d.1;
}

abbrev pub text_of : Option String → Result String String
text_of none = fails "nil"
text_of (some text) = returns text

-- A cache that forgets all but the last key.
abbrev pub small_cache : Cache (List (String × String))
small_cache = record {
  get_key = λ c key. text_of (lookup key c);
  set_key = λ c key text ttl. insert key text c;
  scan = λ c pattern. [];
  del = λ c key. delete key c;
}

abbrev pub runtime : Runtime ℕ
runtime = record {
  new_vm = λ depth. 0;
  run_string = λ script v. finished nil v;
  hook = λ name v. none;
  to_string = λ v. "";
  to_integer = λ v. 0;
}

abbrev pub unary : ℕ → String
unary zero = String.[]
unary (suc n) = String.◌∷◌ "n" (unary n)

abbrev pub libs : Libraries Rows (List (String × String)) ℕ
libs = record {
  db = small_db;
  cache = small_cache;
  games = record {
    marshal = λ g. some g.game_code;
    unmarshal = λ t. if t == "bj" then some blackjack else none;
  };
  versions = record { marshal = λ v. none; unmarshal = λ t. none };
  runtime = runtime;
  number = unary;
}

abbrev pub marshal : WsMessage → String
marshal m = m.kind

unfoldable pub opening : Service Rows (List (String × String)) ℕ String
unfolding new_gateway
opening = record {
  db = ([], []);
  actor_system = record { actors = []; count = pos 0 };
  ws_gateway = new_gateway default_gateway_config;
  cache = some [];
}

abbrev pub request : CreateRoomRequest
request = record { game_id = 7; room_name = ""; max_players = pos 0 }

abbrev pub cached : Service Rows (List (String × String)) ℕ String
cached = record opening { cache = some (("game:nnnnnnn", "bj") ∷ []) }

abbrev pub first_row : GameRoom
first_row = new_room_row blackjack "r" "ann" "Ann" request

abbrev pub opened : Service Rows (List (String × String)) ℕ String
unfolding create_room
opened = (create_room libs 5 "r" "ann" "Ann" request opening).0
