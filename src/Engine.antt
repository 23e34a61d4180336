-- ===== src/Engine.antt =====
-- pkg/engine: the engine that runs a room's game script. The JavaScript runtime (goja) is a
-- parameter: `V` is the content of a virtual machine. A run of script code is a tree of the calls
-- that it makes of the host, so it ends; a run that is stopped for its time ends in a throw.
pub mod Random
pub mod Host
pub mod Goja
pub mod Runs
pub mod Shuffle
pub mod Timers
pub mod Hooks
mod Tests
use online_game.Prelude.{ℕ, ◌+◌, ◌-◌, ◌^◌, String, Bool, Option, List, ltb, if◌then◌else◌}
use online_game.Prelude.Dict.{Dict}
use online_game.Prelude.Int.{ℤ, pos, negsuc}
use online_game.Prelude.Result.{Result}
use online_game.Prelude.Value.{Value}
use online_game.Actor.Message.{Payload}
use online_game.Actor.Game.{Effect}

-- pkg/engine/sandbox.go.
pub record SandboxConfig : Type 0 where
  pub execution_timeout_ms : ℤ
  pub max_script_size : ℤ
  pub max_call_stack_size : ℤ
  pub max_active_timers : ℤ

abbrev pub default_sandbox_config : SandboxConfig
default_sandbox_config = record {
  execution_timeout_ms = pos 5000;
  max_script_size = pos 524288;
  max_call_stack_size = pos 100;
  max_active_timers = pos 50;
}

-- pkg/engine/engine.go. `Env` is never read.
pub record EngineConfig : Type 0 where
  pub game_id : String
  pub room_id : String
  pub game_code : String
  pub version : String
  pub script_path : String
  pub max_memory : ℤ
  pub timeout : ℤ
  pub sandbox : SandboxConfig

pub record EngineStats : Type 0 where
  pub execute_count : ℕ
  pub error_count : ℕ
  pub total_exec_time_ms : ℕ
  pub memory_usage : ℕ
  pub uptime_ms : ℕ

-- The functions that `injectHostAPI` gives to a script, without the prefix `__platform_`.
pub data HostFn : Type 0 where
  broadcast send_to send_except end_game : HostFn
  get_players get_room_config get_room_id get_game_id : HostFn
  set_timeout set_interval clear_timeout clear_interval : HostFn
  random_int shuffle random_choice uuid : HostFn
  log warn error : HostFn
  get_state set_state : HostFn

-- A run of script code. A call of the host has its arguments, what the clock shows at the readings
-- during the call, and the machine should the call panic. A throw tells whether the timer of the
-- execution timeout had fired.
pub data Program (V : Type 0) : Type 0 where
  finished : Value → V → Program V
  threw : String → Bool → V → Program V
  calls : HostFn → List Value → (ℕ → ℕ) → V → (Value → Program V) → Program V

-- goja. `nil` is both `undefined` and `null`; a 64-bit integer is its bit pattern.
pub record Runtime (V : Type 0) : Type 0 where
  pub new_vm : ℤ → V
  pub run_string : String → V → Program V
  pub hook : String → V → Option (List Payload → Program V)
  pub to_string : Value → String
  pub to_integer : Value → ℕ

-- An entry of `timers`: a timer made by `time.AfterFunc`, or the `&time.Timer{}` of an interval.
pub data TimerEntry : Type 0 where
  started placeholder : TimerEntry

-- What the Go runtime still has to fire: a timer once, a ticker again and again.
pub data Pending : Type 0 where
  once every : Pending

-- `timers` and `pending` are keyed by the bits of the id. The callbacks are what they do: the
-- effects of `onGameEnd`, and whether `onTimerCallback` is set.
pub record GojaEngine (V : Type 0) : Type 0 where
  pub vm : Option V
  pub config : EngineConfig
  pub sandbox : SandboxConfig
  pub timers : Dict ℕ TimerEntry
  pub pending : Dict ℕ Pending
  pub timer_id : ℕ
  pub state : Value
  pub start_time : ℕ
  pub stats : EngineStats
  pub on_game_end : Option (String → Value → List Effect)
  pub has_timer_callback : Bool

-- `RoomAdapter`, as far as scripts read it.
pub record RoomAdapter : Type 0 where
  pub get_player_ids : String → List String
  pub get_config : String → Value

-- The integer that 64 bits stand for.
abbrev pub signed : ℕ → ℤ
signed n = if ltb n (2 ^ 63) then pos n else negsuc (2 ^ 64 - 1 - n)

-- `int(x)` of the bits of an `int32`.
abbrev pub widened : ℕ → ℕ
widened n = if ltb n (2 ^ 31) then n else n + (2 ^ 64 - 2 ^ 32)
