-- ===== src/Engine/Goja.antt =====
-- pkg/engine/js_engine.go: the engine itself, and the timers that the Go runtime fires.
use Prim.Native.String.{len}
use online_game.Prelude.{
  ℕ, ◌+◌, String, Bool, true, false, Option, none, some, List, [], ◌∷◌, ◌++◌, ◌&&◌, if◌then◌else◌,
}
use online_game.Prelude.Dict.{lookup, delete}
use online_game.Prelude.Equality.{nat_eq}
use online_game.Prelude.Int.{ℤ, pos, ltb_ℤ}
use online_game.Prelude.Text.{concat}
use online_game.Prelude.Value.{Value, nil, object}
use online_game.Actor.Message.{Payload, timer_data, Message, MsgType, new_message}
use online_game.Actor.Game.{Effect, EngineInterface}
use online_game.Engine.{
  default_sandbox_config, EngineConfig, Program, Runtime, Pending, once, every, GojaEngine,
  RoomAdapter, signed,
}
use online_game.Engine.Host.{returned, raised, panicked, Run, run, clear_entry, answers, panics}

abbrev empty_config : EngineConfig
empty_config = record {
  game_id = "";
  room_id = "";
  game_code = "";
  version = "";
  script_path = "";
  max_memory = pos 0;
  timeout = pos 0;
  sandbox = record {
    execution_timeout_ms = pos 0;
    max_script_size = pos 0;
    max_call_stack_size = pos 0;
    max_active_timers = pos 0;
  };
}

abbrev is_zero : ℤ → Bool
is_zero (pos ℕ.zero) = true
is_zero n = false

-- What `LoadScript` does: nil, an error, or a panic of a host function that no one recovers.
pub data Loaded : Type 0 where
  loaded : Loaded
  refused : String → Loaded
  load_panics : Loaded

-- What `TriggerHook` returns.
pub record HookResult : Type 0 where
  pub value : Value
  pub error : Option String

-- The message that the service's callback sends to the room's actor.
unfoldable pub timer_message : ℕ → ℕ → Message
unfolding new_message
timer_message now id =
    new_message now MsgType.timer "" (timer_data (record { id = signed id; once = false }))

module _ {V : Type 0} where
  -- The config is nil at first; nothing reads it before `Init`.
  unfoldable pub new_goja_engine : GojaEngine V
  new_goja_engine = record {
    vm = none;
    config = empty_config;
    sandbox = empty_config.sandbox;
    timers = [];
    pending = [];
    timer_id = 0;
    state = object [];
    start_time = 0;
    stats = record {
      execute_count = 0;
      error_count = 0;
      total_exec_time_ms = 0;
      memory_usage = 0;
      uptime_ms = 0;
    };
    on_game_end = none;
    has_timer_callback = false;
  }

  -- `SetOnGameEnd` and `SetTimerCallback`, with a callback that is not nil.
  unfoldable pub set_on_game_end : (String → Value → List Effect) → GojaEngine V → GojaEngine V
  set_on_game_end f e = record e { on_game_end = some f }

  unfoldable pub set_timer_callback : GojaEngine V → GojaEngine V
  set_timer_callback e = record e { has_timer_callback = true }

  unfoldable pub get_state : GojaEngine V → Value
  get_state e = e.state

  -- The runtime fires a timer: the id that the callback gets, none for nothing. A timeout that has
  -- fired stays in `timers`. A ticker ends when it finds no callback.
  unfoldable pub fire_pending : ℕ → Option Pending → GojaEngine V → GojaEngine V × Option ℕ
  unfolding delete
  fire_pending id none e = (e, none)
  fire_pending id (some once) e =
      (record e { pending = delete id e.pending }, if e.has_timer_callback then some id else none)
  fire_pending id (some every) e =
      if e.has_timer_callback
      then (e, some id)
      else (record e { pending = delete id e.pending }, none)

  unfoldable pub fire : ℕ → GojaEngine V → GojaEngine V × Option ℕ
  unfolding fire_pending lookup
  fire id e = fire_pending id (lookup id e.pending) e

  -- The loop of `Destroy` over the timers in the order `ids` of the iteration.
  unfoldable pub stop_timers : List ℕ → GojaEngine V → GojaEngine V × Bool
  unfolding clear_entry lookup
  stop_timers [] e = (e, false)
  stop_timers (id ∷ ids) e =
      let r = clear_entry id (lookup id e.timers) e in
      elim r.called [ answers v ↦ stop_timers ids r.engine | panics ↦ (r.engine, true) ]

  -- The engine afterwards, and whether the call panicked.
  unfoldable pub destroy : (GojaEngine V → List ℕ) → GojaEngine V → GojaEngine V × Bool
  unfolding stop_timers
  destroy order e =
      let (stopped, failed) = stop_timers (order e) e in
      if failed then (stopped, true) else (record stopped { vm = none }, false)

  -- `Init` never fails; `now` is the time of the call.
  unfoldable pub init : Runtime V → ℕ → EngineConfig → GojaEngine V → GojaEngine V
  init runtime now config e =
      let sandbox =
        if is_zero config.sandbox.execution_timeout_ms && is_zero config.sandbox.max_call_stack_size
        then default_sandbox_config
        else config.sandbox in
      record e {
        config = record config { sandbox = sandbox };
        vm = some (runtime.new_vm sandbox.max_call_stack_size);
        start_time = now;
        sandbox = sandbox;
      }

  module _ (runtime : Runtime V) (room : RoomAdapter) (number : ℕ → String)
      (text : ℤ → String) where
    -- A script of the two that `LoadScript` runs.
    abbrev loading :
        String
        → (GojaEngine V → GojaEngine V × List Effect × Loaded)
        → Run V
        → GojaEngine V × List Effect × Loaded
    loading what next r = elim r.ended [
      | returned v ↦ let (e, sent, l) = next r.engine in (e, r.sent ++ sent, l)
      | raised message fired ↦ (r.engine, r.sent, refused (concat (what ∷ message ∷ [])))
      | panicked ↦ (r.engine, r.sent, load_panics)
    ]

    run_text : String → GojaEngine V → Option V → Run V
    unfolding run
    run_text script e none = record { engine = e; sent = []; ended = panicked }
    run_text script e (some v) = run runtime room number (runtime.run_string script v) e

    -- `sdk` is the text of `getSDKRuntime`.
    unfoldable pub load_script :
        String → String → GojaEngine V → GojaEngine V × List Effect × Loaded
    unfolding run_text
    load_script sdk script e = elim e.vm [
      | none ↦ (e, [], refused "engine not initialized")
      | some v ↦
          if ltb_ℤ (pos 0) e.sandbox.max_script_size
            && ltb_ℤ e.sandbox.max_script_size (pos (len script))
          then (
            e,
            [],
            refused (
                concat (
                  "script exceeds max size ("
                  ∷ number (len script)
                  ∷ " > "
                  ∷ text e.sandbox.max_script_size
                  ∷ " bytes)"
                  ∷ [])),
          )
          else loading "load SDK runtime: "
              (λ e'.
                loading "load game script: " (λ e''. (e'', [], loaded)) (run_text script e' e'.vm))
              (run_text sdk e e.vm)
    ]

    abbrev counted : ℕ → ℕ → GojaEngine V → GojaEngine V
    counted elapsed errors e = record e {
      stats = record e.stats {
        execute_count = e.stats.execute_count + 1;
        error_count = e.stats.error_count + errors;
        total_exec_time_ms = e.stats.total_exec_time_ms + elapsed;
      };
    }

    abbrev hook_error : String → GojaEngine V → String → Bool → String
    hook_error name e message fired =
        if ltb_ℤ (pos 0) e.sandbox.execution_timeout_ms && fired
        then concat
            ("hook " ∷ name ∷ " timed out after " ∷ text e.sandbox.execution_timeout_ms ∷ "ms" ∷ [])
        else concat ("hook " ∷ name ∷ " execution error: " ∷ message ∷ [])

    -- A recovered panic leaves the results at their zero values.
    abbrev pub after_run : String → ℕ → Run V → GojaEngine V × List Effect × HookResult
    after_run name elapsed r = elim r.ended [
      | returned v ↦ (counted elapsed 0 r.engine, r.sent, record { value = v; error = none })
      | raised message fired ↦ (
        counted elapsed 1 r.engine,
        r.sent,
        record { value = nil; error = some (hook_error name r.engine message fired) },
      )
      | panicked ↦ (counted elapsed 1 r.engine, r.sent, record { value = nil; error = none })
    ]

    unfoldable pub run_hook :
        String
        → ℕ
        → List Payload
        → Option (List Payload → Program V)
        → GojaEngine V
        → GojaEngine V × List Effect × HookResult
    unfolding run
    run_hook name elapsed args none e =
        (counted elapsed 0 e, [], record { value = nil; error = none })
    run_hook name elapsed args (some f) e =
        after_run name elapsed (run runtime room number (f args) e)

    -- `elapsed` is how long the call takes, in milliseconds.
    unfoldable pub trigger_hook :
        ℕ → String → List Payload → GojaEngine V → GojaEngine V × List Effect × HookResult
    unfolding run_hook
    trigger_hook elapsed name args e = elim e.vm [
      | none ↦ (e, [], record { value = nil; error = some "engine not initialized" })
      | some v ↦ run_hook name elapsed args (runtime.hook name v) e
    ]

    -- The engine as the room's actor knows it.
    unfoldable pub engine_interface :
        (String → List Payload → GojaEngine V → ℕ)
        → (GojaEngine V → List ℕ)
        → EngineInterface (GojaEngine V)
    unfolding trigger_hook destroy
    engine_interface elapsed order = record {
      trigger_hook = λ name args e.
          let (after, sent, result) = trigger_hook (elapsed name args e) name args e in
          record { engine = after; sent = sent; error = result.error };
      destroy = destroy order;
    }
