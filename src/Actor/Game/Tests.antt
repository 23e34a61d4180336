-- ===== src/Actor/Game/Tests.antt =====
-- Runs of a room on small inputs, and the theorems at inputs where their hypotheses hold.
use online_game.Prelude.{
  String, ◌≡◌, refl, ◌≢◌, ◌⊎◌, inr, Bool, true, false, none, some, List, [], ◌∷◌, ◌++◌, arith,
  length, if◌then◌else◌,
}
use online_game.Prelude.Dict.{lookup, insert, has_key}
use online_game.Prelude.Equality.{◌==◌, string_eq}
use online_game.Prelude.Int.{pos}
use online_game.Prelude.Value.{nil, str, int, object}
use online_game.Actor.Message.{
  MsgType, Message, player_join, player_leave, player_ready, game_start, shutdown, Payload,
  PlayerJoinData, player_join_data, value,
}
use online_game.Actor.Mailbox.{
  BaseActor, looping, Event, starts, sends, receives, run, step, new_base_actor, state_of,
}
use online_game.Actor.Game.{
  EngineInterface, GameActor, Environment, GameActorConfig, PlayerState, Effect, broadcast_to_room,
  update_room_status,
}
use online_game.Actor.Game.Membership.{
  join_data, handle_player_join, handle_player_leave, handle_player_ready, newcomer, join_with,
}
use online_game.Actor.Game.Play.{handle_message, handle_game_start, handle_shutdown, new_game_actor}
use online_game.Actor.Game.Invariant.{IsValid}
use online_game.Actor.Game.Histories.{actor-IsValid}
use online_game.Actor.Game.Lifecycle.{start_after_shutdown}
use online_game.Actor.Game.Seats
use online_game.Actor.Game.Readiness.{AllReady, handle_player_ready_lem}

-- An engine that notes the hooks that it runs and fails on none.
abbrev recorder : EngineInterface (List String)
recorder = record {
  trigger_hook = λ hook args e. record { engine = hook ∷ e; sent = []; error = none };
  destroy = λ e. (e, false);
}

abbrev env : Environment
env = record { now = λ m. m.time; first = λ m d. 0 }

abbrev info : PlayerJoinData
info = record { nickname = "Al"; avatar = ""; metadata = nil }

abbrev message : MsgType → String → Payload → Message
message kind player payload = record {
  kind = kind;
  player_id = player;
  action = "bet";
  payload = payload;
  time = 9;
}

abbrev player : String → Bool → PlayerState
player id ready = record {
  id = id;
  nickname = id;
  avatar = "";
  is_ready = ready;
  is_online = true;
  joined_at = 1;
  metadata = nil;
}

-- Alice owns a room for three; Bob is ready.
abbrev table : Bool → GameActor (List String)
table playing = record {
  game_id = "7";
  room_id = "r";
  game_code = "bj";
  engine = some [];
  players = ("alice", player "alice" false) ∷ ("bob", player "bob" true) ∷ [];
  owner_id = "alice";
  max_players = pos 3;
  is_playing = playing;
  tick_count = 0;
  created_at = 0;
  effects = [];
}

table-IsValid : IsValid (table false)
unfolding lookup
table-IsValid = record {
  unique = (refl, (refl, tt));
  seated = (refl, (refl, tt));
  not_over_full = omega arith;
  owner_present = inr refl;
}

abbrev config : GameActorConfig (List String)
config = record {
  game_id = "7";
  room_id = "r";
  game_code = "bj";
  max_players = pos 3;
  inbox_cap = pos 8;
  engine = some [];
}

abbrev evening : List (Event Message)
evening =
    starts
    ∷ sends (message player_join "alice" (player_join_data info))
    ∷ receives
    ∷ sends (message game_start "" (value nil))
    ∷ receives
    ∷ []

abbrev evening_room : BaseActor Message (GameActor (List String))
evening_room = record {
  id = "game:7:r";
  inbox = [];
  inbox_cap = 8;
  phase = looping;
  running = true;
  cancelled = false;
  processed = 2;
  errors = 0;
  state = record (table true) {
    engine = some ("onGameStart" ∷ "onPlayerJoin" ∷ []);
    players =
        ("alice", newcomer env (message player_join "alice" (player_join_data info)) info) ∷ [];
    effects =
        broadcast_to_room "r" "player_join" (join_data "alice" info 1 (pos 3))
        ∷ update_room_status "r" "playing"
        ∷ broadcast_to_room "r" "game_start" (object (("roomID", str "r") ∷ []))
        ∷ [];
  };
}

evening-run :
    run (handle_message recorder env) evening (new_game_actor config 0) ≡ some evening_room
unfolding run step new_game_actor new_base_actor handle_message handle_player_join join_with lookup
    insert handle_game_start
evening-run = refl

actor-IsValid_example : IsValid evening_room.state
actor-IsValid_example = actor-IsValid recorder env config 0 evening evening_room evening-run

start_after_shutdown_example :
    let closed =
      state_of (handle_shutdown recorder env (message shutdown "" (value nil)) (table true)) in
    let again =
      state_of (handle_game_start recorder env (message game_start "" (value nil)) closed) in
    (closed.is_playing ≡ false)
    × (again.is_playing ≡ true)
    × ((l : List Effect) × (again.effects ≡ closed.effects ++ update_room_status "r" "playing" ∷ l))
start_after_shutdown_example =
    start_after_shutdown recorder env (message shutdown "" (value nil))
      (message game_start "" (value nil)) (table true)

handle_player_join_lem_example :
    lookup "carl"
      (state_of (
        handle_player_join recorder env
          (message player_join "carl" (player_join_data info))
          (table false))).players
    ≡ some (newcomer env (message player_join "carl" (player_join_data info)) info)
unfolding lookup
handle_player_join_lem_example =
    Seats.handle_player_join_lem recorder env (message player_join "carl" (player_join_data info))
      info (table false) "carl" refl

handle_player_leave-owner_example :
    let room =
      state_of (
        handle_player_leave recorder env
          (message player_leave "alice" (value nil))
          (table false)) in
    ((◌≢◌ {A = String} "alice" "alice") × (room.owner_id ≡ "alice"))
    ⊎ (((◌≡◌ {A = String} "alice" "alice") × (length room.players ≡ 0) × (room.owner_id ≡ "alice"))
        ⊎ ((◌≡◌ {A = String} "alice" "alice") × (has_key room.owner_id room.players ≡ true)))
unfolding lookup
handle_player_leave-owner_example =
    Seats.handle_player_leave-owner recorder env (message player_leave "alice" (value nil))
      (player "alice" false) (table false) refl

handle_player_ready_lem_example :
    let after =
      state_of (
        handle_player_ready recorder env
          (message player_ready "alice" (value nil))
          (table false)) in
    let ready = broadcast_to_room "r" "player_ready" (object (("playerId", str "alice") ∷ [])) in
    let all_ready =
      broadcast_to_room "r" "all_ready"
        (object (("playerCount", int (pos (length after.players))) ∷ [])) in
    ((j : String)
      → lookup j after.players
        ≡ (if "alice" == j then some (player "alice" true) else lookup j (table false).players))
    × ((AllReady after.players × (after.effects ≡ ready ∷ all_ready ∷ []))
        ⊎ ((¬ AllReady after.players) × (after.effects ≡ ready ∷ [])))
unfolding lookup
handle_player_ready_lem_example =
    handle_player_ready_lem recorder env (message player_ready "alice" (value nil))
      (player "alice" false) (table false) table-IsValid refl
