-- ===== src/GameService/World/Tests.antt =====
-- The theorems on the game service over time, at inputs where their hypotheses hold.
use online_game.Prelude.{if◌then◌else◌, ℕ, String, ◌≡◌, inr, arith, refl, none, some, List, [], ◌∷◌}
use online_game.Actor.Game.{new_room}
use online_game.Actor.Game.Quiet.{
  RoomHook, on_player_join, on_player_leave, on_player_action, on_game_start, on_tick, on_timer,
  on_restore, on_game_end, hook_name, bare,
}
use online_game.Actor.Message.{Message, MsgType, new_message, action_message, value}
use online_game.Engine.{GojaEngine, finished}
use online_game.GameService.Silent.{hear, room_unscripted}
use online_game.Prelude.Dict.{lookup, insert}
use online_game.Prelude.Equality.{◌==◌, string_eq}
use online_game.Prelude.Int.{pos}
use online_game.Prelude.Value.{nil, object}
use online_game.Websocket.Gateway.{send_to, after}
use online_game.GameService.{Libraries, Service, RoomActor}
use online_game.GameService.Rooms.{room_cfg, create_room, create_game_actor, actor_id}
use online_game.GameService.Visits.{join_room, player_row}
use online_game.GameService.Joining.{actor_at, join_message}
use online_game.GameService.Creation.{room_actor}
use online_game.GameService.World.{Runner, move, world_run}
use online_game.GameService.World.Arrivals.{join_room-refused}
use online_game.Actor.Game.Membership.{error_data, newcomer}
use online_game.GameService.World.{closes, leaves, disconnects, world_step}
use online_game.GameService.World.Lasting.{HasRoom, room_lasts}
use online_game.GameService.Sockets.{handle_web_socket}
use online_game.Actor.Game.Play.{actor_id_of}
use online_game.GameService.Samples.{opened}
use online_game.Actor.Mailbox.{receives, new_base_actor}
use online_game.GameService.Samples.{blackjack, Rows, runtime, libs, marshal, opening, first_row}

abbrev runner : Runner ℕ
runner = record {
  now = 9;
  now_ms = 9;
  env = record { now = λ m. 9; first = λ m players. 0 };
  elapsed = λ name args e. 0;
  order = λ e. [];
}

-- The actor of a room for one player, in which ann sits.
unfoldable full_room : RoomActor ℕ
unfolding room_actor
full_room =
    let a = room_actor libs 5 blackjack "r" (pos 1) in
    record a {
      state = record a.state {
        players =
            (
              "ann",
              newcomer runner.env (join_message 5 "ann" "Ann")
                  (record { nickname = "Ann"; avatar = ""; metadata = nil }),
            )
            ∷ [];
        owner_id = "ann";
      };
    }

abbrev crowded : Service Rows (List (String × String)) ℕ String
crowded = record opening {
  db = (first_row ∷ [], []);
  actor_system = record { actors = (actor_id libs 7 "r", full_room) ∷ []; count = pos 1 };
}

join_room-refused_example :
    let j = join_room libs 6 "r" "bob" "Bob" crowded in
    let t = move libs marshal (λ n. "n") runner (actor_id libs 7 "r") receives j.0 in
    (j.1 ≡ none)
    × (t.db ≡ (first_row ∷ [], player_row 6 "r" "bob" "Bob" ∷ []))
    × ((b : RoomActor ℕ) × (actor_at (actor_id libs 7 "r") t ≡ some b)
        × (b.state.players ≡ full_room.state.players))
    × (t.ws_gateway ≡ send_to marshal 9 "bob" "error" (error_data 46901 "房间已满") crowded.ws_gateway)
unfolding opening full_room actor_at lookup insert new_base_actor actor_id room_actor
join_room-refused_example =
    join_room-refused libs marshal (λ n. "n") 6 "r" "bob" "Bob" first_row full_room crowded runner
      refl refl refl refl refl refl refl (omega arith) (inr (omega arith))

room_lasts_example :
    let t = after (
      world_run libs marshal
        (λ n. "n")
        (closes 8 "r" ∷ leaves 9 "r" "ann" ∷ disconnects "c9" ∷ [])
        opened) in
    HasRoom libs marshal (λ n. "n") (actor_id_of "nnnnnnn" "r") t
    × ((handle_web_socket libs marshal 10 "c2" "bob" "nnnnnnn" "r" t).1 ≡ none)
unfolding opening create_room lookup insert create_game_actor actor_id_of new_base_actor world_run
    world_step
room_lasts_example =
    room_lasts libs marshal (λ n. "n") "nnnnnnn" "r" opened
      (closes 8 "r" ∷ leaves 9 "r" "ann" ∷ disconnects "c9" ∷ []) 10 "c2" "bob"
      (after (
        world_run libs marshal (λ n. "n")
          (closes 8 "r" ∷ leaves 9 "r" "ann" ∷ disconnects "c9" ∷ []) opened))
      (tt, (tt, (tt, tt))) refl refl

-- A machine whose only global function is `eval`.
abbrev with_eval : Libraries Rows (List (String × String)) ℕ
with_eval = record libs {
  runtime = record runtime {
    hook = λ name v. if name == "eval" then some (λ args. finished nil v) else none;
  };
}

with_eval-silent : (h : RoomHook) → with_eval.runtime.hook (hook_name h) 0 ≡ none
with_eval-silent on_player_join = refl
with_eval-silent on_player_leave = refl
with_eval-silent on_player_action = refl
with_eval-silent on_game_start = refl
with_eval-silent on_tick = refl
with_eval-silent on_timer = refl
with_eval-silent on_restore = refl
with_eval-silent on_game_end = refl

-- Ann joins, starts the game and plays.
abbrev evening : List (Runner ℕ × Rows × Message)
evening =
    (runner, ([], []), join_message 5 "ann" "Ann")
    ∷ (runner, ([], []), new_message 6 MsgType.game_start "" (value nil))
    ∷ (runner, ([], []), action_message 7 "ann" "hit" nil)
    ∷ []

room_unscripted_example :
    let fresh = new_room (room_cfg with_eval 5 blackjack "r" (pos 4)) 5 in
    (bare (hear with_eval (λ n. "n") evening fresh)
      ≡ hear with_eval (λ n. "n") evening (bare fresh))
    × ((e : GojaEngine ℕ) × ((hear with_eval (λ n. "n") evening fresh).engine ≡ some e)
        × (e.state ≡ object [])
        × (e.stats.error_count ≡ 0))
unfolding new_message action_message join_message
room_unscripted_example =
    room_unscripted with_eval (λ n. "n") 5 blackjack "r" (pos 4) evening with_eval-silent refl
