-- ===== src/Engine/Tests.antt =====
-- Runs of the engine on small inputs, and the theorems at inputs where their hypotheses hold.
use online_game.Prelude.{
  ℕ, ◌+◌, String, ◌≡◌, refl, inr, false, none, some, List, [], ◌∷◌, if◌then◌else◌,
}
use mathlib.Core.List.{Perm}
use online_game.Prelude.Dict.{lookup, insert, keys}
use online_game.Prelude.Equality.{◌==◌, string_eq, nat_eq}
use online_game.Prelude.Int.{ℤ, pos}
use online_game.Prelude.Value.{Value, nil, int, str}
use online_game.Actor.Message.{MsgType, Message, Payload, value}
use online_game.Actor.Mailbox.{Handled}
use online_game.Actor.Game.{Environment, GameActor}
use online_game.Actor.Game.Play.{handle_shutdown}
use online_game.Engine.{
  EngineConfig, Program, calls, finished, Runtime, started, placeholder, once, every, GojaEngine,
  RoomAdapter, set_timeout, clear_interval,
}
use online_game.Engine.Random.{shuffle_list}
use online_game.Engine.Host.{start_timeout, start_interval, clear_timer, run, panics}
use online_game.Engine.Goja.{
  new_goja_engine, init, set_timer_callback, fire, destroy, engine_interface,
}
use online_game.Engine.Shuffle
use online_game.Engine.Shuffle.{random_int_lem}
use online_game.Engine.Timers.{
  WithinLimit, run-WithinLimit, sets_timeout, timer_steps, interval_stays,
}
use online_game.Engine.Hooks.{shutdown_interval}

abbrev integer_of : Value → ℕ
integer_of (int (pos n)) = n
integer_of v = 0

abbrev text_of : Value → String
text_of (str s) = s
text_of v = ""

-- A script with one hook, which clears the timer 1; the machine counts its calls.
abbrev clears_one : List Payload → Program ℕ
clears_one args = calls clear_interval (int (pos 1) ∷ []) (λ n. n) 7 (λ v. finished v 8)

abbrev runtime : Runtime ℕ
runtime = record {
  new_vm = λ depth. 0;
  run_string = λ script v. finished nil v;
  hook = λ name v. if name == "onTick" then some clears_one else none;
  to_string = text_of;
  to_integer = integer_of;
}

abbrev room : RoomAdapter
room = record { get_player_ids = λ id. "ann" ∷ []; get_config = λ id. nil }

abbrev number : ℕ → String
number n = "n"

abbrev text : ℤ → String
text n = "n"

-- Two timers at most.
abbrev config : EngineConfig
config = record {
  game_id = "7";
  room_id = "r";
  game_code = "bj";
  version = "latest";
  script_path = "";
  max_memory = pos 0;
  timeout = pos 0;
  sandbox = record {
    execution_timeout_ms = pos 5000;
    max_script_size = pos 100;
    max_call_stack_size = pos 100;
    max_active_timers = pos 2;
  };
}

unfoldable fresh : GojaEngine ℕ
unfolding init new_goja_engine set_timer_callback
fresh = set_timer_callback (init runtime 5 config new_goja_engine)

-- The engine after two timeouts, and after an interval.
abbrev full : GojaEngine ℕ
full = record fresh {
  timer_id = 2;
  timers = (1, started) ∷ (2, started) ∷ [];
  pending = (1, once) ∷ (2, once) ∷ [];
}

abbrev ticking : GojaEngine ℕ
ticking = record fresh { timer_id = 1; timers = (1, placeholder) ∷ []; pending = (1, every) ∷ [] }

two_timeouts : timer_steps (sets_timeout ∷ sets_timeout ∷ []) fresh ≡ full
unfolding timer_steps fresh start_timeout insert init new_goja_engine set_timer_callback
two_timeouts = refl

an_interval : (start_interval 1000 fresh).engine ≡ ticking
unfolding fresh start_interval insert init new_goja_engine set_timer_callback
an_interval = refl

shuffled_three : shuffle_list {A = ℕ} (λ i. i + 3) (1 ∷ 2 ∷ 3 ∷ []) ≡ 2 ∷ 1 ∷ 3 ∷ []
unfolding shuffle_list
shuffled_three = refl

shuffle_list-Perm_example :
    Perm {A = ℕ} (shuffle_list {A = ℕ} (λ i. i + 3) (1 ∷ 2 ∷ 3 ∷ [])) (1 ∷ 2 ∷ 3 ∷ [])
shuffle_list-Perm_example = Shuffle.shuffle_list-Perm (λ i. i + 3) (1 ∷ 2 ∷ 3 ∷ [])

run-WithinLimit_example :
    WithinLimit
      (run runtime room number
        (calls set_timeout (nil ∷ int (pos 5) ∷ []) (λ n. n) 7 (λ v. finished v 8))
        full).engine
unfolding fresh
run-WithinLimit_example =
    run-WithinLimit runtime room number
      (calls set_timeout (nil ∷ int (pos 5) ∷ []) (λ n. n) 7 (λ v. finished v 8)) full (inr refl)

interval_stays_example :
    let running = (start_interval 1000 fresh).engine in
    (clear_timer 1 running ≡ record { engine = running; sent = []; called = panics })
    × (fire 1 running ≡ (running, some 1))
unfolding fresh
interval_stays_example = interval_stays 1000 fresh refl refl refl

abbrev table : GameActor (GojaEngine ℕ)
table = record {
  game_id = "7";
  room_id = "r";
  game_code = "bj";
  engine = some ticking;
  players = [];
  owner_id = "";
  max_players = pos 3;
  is_playing = false;
  tick_count = 0;
  created_at = 0;
  effects = [];
}

abbrev env : Environment
env = record { now = λ m. m.time; first = λ m d. 0 }

abbrev shut : Message
shut = record {
  kind = MsgType.shutdown;
  player_id = "";
  action = "";
  payload = value nil;
  time = 9;
}

abbrev order : GojaEngine ℕ → List ℕ
order e = keys e.timers

shutdown_interval_example :
    handle_shutdown
      (engine_interface runtime room number text (λ name args e. 1) order)
      env
      shut
      table
    ≡ Handled.panicked (record table { engine = some (destroy order ticking).0 })
unfolding fresh lookup
shutdown_interval_example =
    shutdown_interval runtime room number text (λ name args e. 1) order env shut table ticking 1
      refl refl refl refl
