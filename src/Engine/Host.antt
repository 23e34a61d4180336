-- ===== src/Engine/Host.antt =====
-- pkg/engine/js_engine.go: the functions of `injectHostAPI`, and a run of script code that calls
-- them. A Go panic in a host function is no exception of the script: it leaves the run.
use online_game.Prelude.{
  ℕ, zero, suc, ◌+◌, ◌*◌, ◌%◌, ◌^◌, String, Bool, true, Option, none, some, List, [], ◌∷◌, ◌++◌,
  ◌&&◌, length, ltb, if◌then◌else◌,
}
use online_game.Prelude.Dict.{lookup, insert, delete}
use online_game.Prelude.Equality.{nat_eq}
use online_game.Prelude.Int.{pos, leb_ℤ, ltb_ℤ}
use online_game.Prelude.Text.{concat}
use online_game.Prelude.Value.{Value, nil, bool, int, str, arr, obj, items_of, list_of}
use online_game.Actor.Game.{Effect}
use online_game.Engine.{
  HostFn, broadcast, send_to, send_except, end_game, get_players, get_room_config, get_room_id,
  get_game_id, set_timeout, set_interval, clear_timeout, clear_interval, random_int, shuffle,
  random_choice, uuid, log, warn, error, get_state, set_state, Program, finished, threw, calls,
  Runtime, TimerEntry, started, placeholder, Pending, once, every, GojaEngine, RoomAdapter, signed,
  widened,
}
use online_game.Engine.Random as Random

-- What a host function does: it returns a value, or panics.
pub data Called : Type 0 where
  answers : Value → Called
  panics : Called

-- The engine afterwards, what was sent, and the answer.
pub record Reply (V : Type 0) : Type 0 where
  pub engine : GojaEngine V
  pub sent : List Effect
  pub called : Called

-- `call.Argument(i)`: undefined where there is none.
abbrev pub argument : ℕ → List Value → Value
argument i [] = nil
argument zero (v ∷ vs) = v
argument (suc i) (v ∷ vs) = argument i vs

abbrev texts : List String → List Value
texts [] = []
texts (s ∷ ss) = str s ∷ texts ss

-- `vm.ToValue(id)`, and an argument that may be missing.
abbrev number_value : ℕ → Value
number_value n = int (signed n)

abbrev value_or_nil : Option Value → Value
value_or_nil none = nil
value_or_nil (some v) = v

abbrev random_answer : Option ℕ → Called
random_answer none = panics
random_answer (some n) = answers (number_value n)

-- The arrays that `shuffle` and `randomChoice` take; any other value is not an array.
abbrev shuffled : (ℕ → ℕ) → Value → Value
unfolding Random.shuffle_list
shuffled clock (arr items) = arr (items_of (Random.shuffle_list clock (list_of items)))
shuffled clock v = v

abbrev chosen : ℕ → Value → Value
unfolding Random.random_choice_of
chosen now (arr items) = value_or_nil (Random.random_choice_of now (list_of items))
chosen now v = nil

-- A duration in milliseconds as a positive `time.Duration`.
abbrev pub is_positive_duration : ℕ → Bool
is_positive_duration ms = let d = ms * 1000000 % 2 ^ 64 in ltb 0 d && ltb d (2 ^ 63)

abbrev game_ended : Option (String → Value → List Effect) → String → Value → List Effect
game_ended none room_id results = []
game_ended (some f) room_id results = f room_id results

module _ {V : Type 0} where
  abbrev reply : GojaEngine V → Value → Reply V
  reply e v = record { engine = e; sent = []; called = answers v }

  abbrev tell : GojaEngine V → Effect → Reply V
  tell e effect = record { engine = e; sent = effect ∷ []; called = answers (bool true) }

  -- `e.sandbox.MaxActiveTimers > 0 && len(e.timers) >= e.sandbox.MaxActiveTimers`
  abbrev pub limit_reached : GojaEngine V → Bool
  limit_reached e =
      ltb_ℤ (pos 0) e.sandbox.max_active_timers
      && leb_ℤ e.sandbox.max_active_timers (pos (length e.timers))

  -- `e.timerID.Add(1)`, of 32 bits.
  abbrev pub next_id : GojaEngine V → ℕ
  next_id e = (e.timer_id + 1) % 2 ^ 32

  abbrev with_timer : TimerEntry → Pending → GojaEngine V → GojaEngine V
  with_timer entry fires e =
      let id = widened (next_id e) in
      record e {
        timer_id = next_id e;
        timers = insert id entry e.timers;
        pending = insert id fires e.pending;
      }

  unfoldable pub start_timeout : GojaEngine V → Reply V
  unfolding insert
  start_timeout e =
      if limit_reached e
      then reply e nil
      else reply (with_timer started once e) (number_value (widened (next_id e)))

  -- `time.NewTicker` panics for a duration that is not positive.
  unfoldable pub start_interval : ℕ → GojaEngine V → Reply V
  unfolding insert
  start_interval ms e =
      if limit_reached e
      then reply e nil
      else if is_positive_duration ms
      then reply (with_timer placeholder every e) (number_value (widened (next_id e)))
      else record { engine = record e { timer_id = next_id e }; sent = []; called = panics }

  -- `t.Stop()` of an entry, and its deletion. `Stop` panics on a timer that was not made by
  -- `NewTimer` or `AfterFunc`.
  unfoldable pub clear_entry : ℕ → Option TimerEntry → GojaEngine V → Reply V
  unfolding delete
  clear_entry id none e = reply e nil
  clear_entry id (some started) e =
      reply (record e { timers = delete id e.timers; pending = delete id e.pending }) nil
  clear_entry id (some placeholder) e = record { engine = e; sent = []; called = panics }

  unfoldable pub clear_timer : ℕ → GojaEngine V → Reply V
  unfolding clear_entry lookup
  clear_timer id e = clear_entry id (lookup id e.timers) e

  -- `.(map[string]any)` panics for any other value, nil included.
  abbrev pub store_state : Value → GojaEngine V → Reply V
  store_state (obj fields) e = reply (record e { state = obj fields }) (bool true)
  store_state v e = record { engine = e; sent = []; called = panics }

  module _ (runtime : Runtime V) (room : RoomAdapter) (number : ℕ → String) where
    abbrev text_at : ℕ → List Value → String
    text_at i args = runtime.to_string (argument i args)

    -- An id takes the number of the next timer.
    abbrev new_uuid : ℕ → GojaEngine V → Reply V
    new_uuid now e =
        reply (record e { timer_id = next_id e })
          (str (concat (number now ∷ "-" ∷ number (next_id e) ∷ [])))

    -- The three functions of the console.
    abbrev logged : GojaEngine V → Reply V
    logged e = reply e nil

    -- `number` is `%d`, and `clock` what `time.Now()` shows, in nanoseconds.
    unfoldable pub host_call : HostFn → List Value → (ℕ → ℕ) → GojaEngine V → Reply V
    unfolding start_timeout start_interval clear_timer Random.random_int Random.shuffle_list
        Random.random_choice_of
    host_call broadcast args clock e =
        tell e (Effect.broadcast_to_room e.config.room_id (text_at 0 args) (argument 1 args))
    host_call send_to args clock e =
        tell e (Effect.send_to (text_at 0 args) (text_at 1 args) (argument 2 args))
    host_call send_except args clock e =
        tell e
          (Effect.send_except e.config.room_id (text_at 0 args) (text_at 1 args) (argument 2 args))
    host_call end_game args clock e = record {
      engine = e;
      sent =
          game_ended e.on_game_end e.config.room_id (argument 0 args)
          ++ Effect.broadcast_to_room e.config.room_id "game_end" (argument 0 args) ∷ [];
      called = answers (bool true);
    }
    host_call get_players args clock e =
        reply e (arr (items_of (texts (room.get_player_ids e.config.room_id))))
    host_call get_room_config args clock e = reply e (room.get_config e.config.room_id)
    host_call get_room_id args clock e = reply e (str e.config.room_id)
    host_call get_game_id args clock e = reply e (str e.config.game_id)
    host_call set_timeout args clock e = start_timeout e
    host_call set_interval args clock e = start_interval (runtime.to_integer (argument 1 args)) e
    host_call clear_timeout args clock e = clear_timer (runtime.to_integer (argument 0 args)) e
    host_call clear_interval args clock e = clear_timer (runtime.to_integer (argument 0 args)) e
    host_call random_int args clock e = record {
      engine = e;
      sent = [];
      called = random_answer (
          Random.random_int (clock 0) (runtime.to_integer (argument 0 args))
            (runtime.to_integer (argument 1 args)));
    }
    host_call shuffle args clock e = reply e (shuffled clock (argument 0 args))
    host_call random_choice args clock e = reply e (chosen (clock 0) (argument 0 args))
    host_call uuid args clock e = new_uuid (clock 0) e
    host_call log args clock e = logged e
    host_call warn args clock e = logged e
    host_call error args clock e = logged e
    host_call get_state args clock e = reply e e.state
    host_call set_state args clock e = store_state (argument 0 args) e

-- How a run ends: with a value, with an exception (and whether the time was up), or by a Go panic.
pub data Ended : Type 0 where
  returned : Value → Ended
  raised : String → Bool → Ended
  panicked : Ended

pub record Run (V : Type 0) : Type 0 where
  pub engine : GojaEngine V
  pub sent : List Effect
  pub ended : Ended

module _ {V : Type 0} (runtime : Runtime V) (room : RoomAdapter) (number : ℕ → String) where
  abbrev pub after_sending : List Effect → Run V → Run V
  after_sending sent r = record r { sent = sent ++ r.sent }

  abbrev pub at_vm : V → GojaEngine V → GojaEngine V
  at_vm v e = record e { vm = some v }

  -- A panic ends the run with the machine as it stands.
  abbrev pub resume : V → Reply V → (Value → GojaEngine V → Run V) → Run V
  resume v r k = elim r.called [
    | answers a ↦ after_sending r.sent (k a r.engine)
    | panics ↦ record { engine = at_vm v r.engine; sent = r.sent; ended = panicked }
  ]

  unfoldable pub run : Program V → GojaEngine V → Run V
  unfolding host_call
  run (finished value v) e = record { engine = at_vm v e; sent = []; ended = returned value }
  run (threw message fired v) e = record {
    engine = at_vm v e;
    sent = [];
    ended = raised message fired;
  }
  run (calls fn args clock v next) e =
      resume v (host_call runtime room number fn args clock e) (λ a. run (next a))
