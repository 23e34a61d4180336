-- ===== src/Engine/Timers.antt =====
-- The timers of a script: their limit, and what becomes of timeouts and intervals.
use online_game.Prelude.{
  ℕ, ◌≡◌, refl, ◌⊎◌, inl, inr, true, false, Option, none, some, List, [], ◌∷◌, String, length,
  arith, Bool-cases,
}
use online_game.Prelude.Dict.{lookup, length-insert, length-delete-le, lookup-insert}
use online_game.Prelude.Equality.{nat_eq, beq_refl}
use online_game.Prelude.Int.{pos, leb_ℤ, ltb_ℤ}
use online_game.Prelude.Value.{Value, nil, bool, int, float, str, arr, obj}
use online_game.Engine.{
  HostFn, broadcast, send_to, send_except, end_game, get_players, get_room_config, get_room_id,
  get_game_id, set_timeout, set_interval, clear_timeout, clear_interval, random_int, shuffle,
  random_choice, uuid, log, warn, error, get_state, set_state, Program, Runtime, TimerEntry,
  started, placeholder, Pending, once, every, GojaEngine, RoomAdapter, widened,
}
use online_game.Engine.Host.{
  answers, panics, host_call, run, start_timeout, start_interval, clear_timer, clear_entry,
  limit_reached, argument, next_id, is_positive_duration, store_state,
}
use online_game.Engine.Goja.{fire, fire_pending}
use online_game.Engine.Runs.{run_keeps}

module _ {V : Type 0} where
  -- A limit that is set is kept.
  abbrev pub WithinLimit : GojaEngine V → Type 0
  WithinLimit e =
      (ltb_ℤ (pos 0) e.sandbox.max_active_timers ≡ false)
      ⊎ (leb_ℤ (pos (length e.timers)) e.sandbox.max_active_timers ≡ true)

  start_timeout-WithinLimit :
      (e : GojaEngine V) → WithinLimit e → WithinLimit (start_timeout e).engine
  unfolding start_timeout
  start_timeout-WithinLimit e v =
      ground (arith, length-insert (widened (next_id e)) started e.timers)

  start_interval-WithinLimit :
      (ms : ℕ) (e : GojaEngine V) → WithinLimit e → WithinLimit (start_interval ms e).engine
  unfolding start_interval
  start_interval-WithinLimit ms e v =
      ground (arith, length-insert (widened (next_id e)) placeholder e.timers)

  clear_entry-WithinLimit :
      (id : ℕ) (o : Option TimerEntry) (e : GojaEngine V)
      → WithinLimit e
      → WithinLimit (clear_entry id o e).engine
  unfolding clear_entry
  clear_entry-WithinLimit id none e v = v
  clear_entry-WithinLimit id (some started) e v = ground (arith, length-delete-le id e.timers)
  clear_entry-WithinLimit id (some placeholder) e v = v

  clear_timer-WithinLimit :
      (id : ℕ) (e : GojaEngine V) → WithinLimit e → WithinLimit (clear_timer id e).engine
  unfolding clear_timer
  clear_timer-WithinLimit id e v = clear_entry-WithinLimit id (lookup id e.timers) e v

  store_state-WithinLimit :
      (v : Value) (e : GojaEngine V) → WithinLimit e → WithinLimit (store_state v e).engine
  store_state-WithinLimit (obj fields) e w = w
  store_state-WithinLimit nil e w = w
  store_state-WithinLimit (bool b) e w = w
  store_state-WithinLimit (int n) e w = w
  store_state-WithinLimit (float n) e w = w
  store_state-WithinLimit (str s) e w = w
  store_state-WithinLimit (arr items) e w = w

  module _ (runtime : Runtime V) (room : RoomAdapter) (number : ℕ → String) where
    host_call-WithinLimit :
        (fn : HostFn) (args : List Value) (clock : ℕ → ℕ) (e : GojaEngine V)
        → WithinLimit e
        → WithinLimit (host_call runtime room number fn args clock e).engine
    unfolding host_call
    host_call-WithinLimit set_timeout args clock e v = start_timeout-WithinLimit e v
    host_call-WithinLimit set_interval args clock e v =
        start_interval-WithinLimit (runtime.to_integer (argument 1 args)) e v
    host_call-WithinLimit clear_timeout args clock e v =
        clear_timer-WithinLimit (runtime.to_integer (argument 0 args)) e v
    host_call-WithinLimit clear_interval args clock e v =
        clear_timer-WithinLimit (runtime.to_integer (argument 0 args)) e v
    host_call-WithinLimit set_state args clock e v = store_state-WithinLimit (argument 0 args) e v
    host_call-WithinLimit broadcast args clock e v = v
    host_call-WithinLimit send_to args clock e v = v
    host_call-WithinLimit send_except args clock e v = v
    host_call-WithinLimit end_game args clock e v = v
    host_call-WithinLimit get_players args clock e v = v
    host_call-WithinLimit get_room_config args clock e v = v
    host_call-WithinLimit get_room_id args clock e v = v
    host_call-WithinLimit get_game_id args clock e v = v
    host_call-WithinLimit random_int args clock e v = v
    host_call-WithinLimit shuffle args clock e v = v
    host_call-WithinLimit random_choice args clock e v = v
    host_call-WithinLimit uuid args clock e v = v
    host_call-WithinLimit log args clock e v = v
    host_call-WithinLimit warn args clock e v = v
    host_call-WithinLimit error args clock e v = v
    host_call-WithinLimit get_state args clock e v = v

    -- No script, whatever it calls, gets the engine past its limit of timers.
    pub run-WithinLimit :
        (p : Program V) (e : GojaEngine V)
        → WithinLimit e
        → WithinLimit (run runtime room number p e).engine
    run-WithinLimit p e w =
        run_keeps runtime room number WithinLimit (λ v e' h. h) host_call-WithinLimit p e w

-- What happens to the timers besides the script's clearing them.
pub data TimerEvent : Type 0 where
  sets_timeout : TimerEvent
  sets_interval : ℕ → TimerEvent
  fires : ℕ → TimerEvent

module _ {V : Type 0} where
  timer_step : TimerEvent → GojaEngine V → GojaEngine V
  unfolding start_timeout start_interval fire
  timer_step sets_timeout e = (start_timeout e).engine
  timer_step (sets_interval ms) e = (start_interval ms e).engine
  timer_step (fires id) e = (fire id e).0

  unfoldable pub timer_steps : List TimerEvent → GojaEngine V → GojaEngine V
  unfolding timer_step
  timer_steps [] e = e
  timer_steps (event ∷ events) e = timer_steps events (timer_step event e)

  fire_pending-timers :
      (id : ℕ) (o : Option Pending) (e : GojaEngine V)
      → limit_reached (fire_pending id o e).0 ≡ limit_reached e
  unfolding fire_pending
  fire_pending-timers id none e = refl
  fire_pending-timers id (some once) e = refl
  fire_pending-timers id (some every) e = elim (Bool-cases e.has_timer_callback) [
    | inl on ↦ rw on refl
    | inr off ↦ rw off refl
  ]

  fire-timers : (id : ℕ) (e : GojaEngine V) → limit_reached (fire id e).0 ≡ limit_reached e
  unfolding fire
  fire-timers id e = fire_pending-timers id (lookup id e.pending) e

  timer_step_full :
      (event : TimerEvent) (e : GojaEngine V)
      → limit_reached e ≡ true
      → limit_reached (timer_step event e) ≡ true
  unfolding timer_step start_timeout start_interval
  timer_step_full sets_timeout e full = ground arith
  timer_step_full (sets_interval ms) e full = ground arith
  timer_step_full (fires id) e full = rw (fire-timers id e) full

  timer_steps_full :
      (events : List TimerEvent) (e : GojaEngine V)
      → limit_reached e ≡ true
      → limit_reached (timer_steps events e) ≡ true
  unfolding timer_steps
  timer_steps_full [] e full = full
  timer_steps_full (event ∷ events) e full =
      timer_steps_full events (timer_step event e) (timer_step_full event e full)

  -- Once the limit is reached, `setTimeout` returns undefined for as long as nothing is cleared,
  -- also when every timer has fired and none is pending.
  timeouts_exhausted :
      (events : List TimerEvent) (e : GojaEngine V)
      → limit_reached e ≡ true
      → let later = timer_steps events e in
        start_timeout later ≡ record { engine = later; sent = []; called = answers nil }
  unfolding start_timeout
  timeouts_exhausted events e full = ground (arith, timer_steps_full events e full)

  -- The id of an interval cannot be cleared: the call panics and changes nothing, and the interval
  -- goes on firing.
  pub interval_stays :
      (ms : ℕ) (e : GojaEngine V)
      → limit_reached e ≡ false
      → is_positive_duration ms ≡ true
      → e.has_timer_callback ≡ true
      → let id = widened (next_id e) in
        let running = (start_interval ms e).engine in
        (clear_timer id running ≡ record { engine = running; sent = []; called = panics })
        × (fire id running ≡ (running, some id))
  unfolding start_interval clear_timer clear_entry fire fire_pending
  interval_stays ms e free long callback = ground (
    arith,
    beq_refl (widened (next_id e)),
    lookup-insert (widened (next_id e)) (widened (next_id e)) placeholder e.timers,
    lookup-insert (widened (next_id e)) (widened (next_id e)) every e.pending,
  )

module _ {V : Type 0} where
  clear_entry_keeps_stats :
      (id : ℕ) (o : Option TimerEntry) (e : GojaEngine V)
      → (clear_entry id o e).engine.stats ≡ e.stats
  unfolding clear_entry
  clear_entry_keeps_stats id none e = refl
  clear_entry_keeps_stats id (some started) e = refl
  clear_entry_keeps_stats id (some placeholder) e = refl

  store_state_keeps_stats :
      (v : Value) (e : GojaEngine V) → (store_state v e).engine.stats ≡ e.stats
  store_state_keeps_stats (obj fields) e = refl
  store_state_keeps_stats nil e = refl
  store_state_keeps_stats (bool b) e = refl
  store_state_keeps_stats (int n) e = refl
  store_state_keeps_stats (float n) e = refl
  store_state_keeps_stats (str s) e = refl
  store_state_keeps_stats (arr items) e = refl

module _ {V : Type 0} (runtime : Runtime V) (room : RoomAdapter) (number : ℕ → String) where
  pub host_call_keeps_stats :
      (fn : HostFn) (args : List Value) (clock : ℕ → ℕ) (e : GojaEngine V)
      → (host_call runtime room number fn args clock e).engine.stats ≡ e.stats
  unfolding host_call start_timeout start_interval clear_timer
  host_call_keeps_stats set_timeout args clock e = ground arith
  host_call_keeps_stats set_interval args clock e = ground arith
  host_call_keeps_stats clear_timeout args clock e =
      clear_entry_keeps_stats (runtime.to_integer (argument 0 args))
        (lookup (runtime.to_integer (argument 0 args)) e.timers) e
  host_call_keeps_stats clear_interval args clock e =
      clear_entry_keeps_stats (runtime.to_integer (argument 0 args))
        (lookup (runtime.to_integer (argument 0 args)) e.timers) e
  host_call_keeps_stats set_state args clock e = store_state_keeps_stats (argument 0 args) e
  host_call_keeps_stats broadcast args clock e = refl
  host_call_keeps_stats send_to args clock e = refl
  host_call_keeps_stats send_except args clock e = refl
  host_call_keeps_stats end_game args clock e = refl
  host_call_keeps_stats get_players args clock e = refl
  host_call_keeps_stats get_room_config args clock e = refl
  host_call_keeps_stats get_room_id args clock e = refl
  host_call_keeps_stats get_game_id args clock e = refl
  host_call_keeps_stats random_int args clock e = refl
  host_call_keeps_stats shuffle args clock e = refl
  host_call_keeps_stats random_choice args clock e = refl
  host_call_keeps_stats uuid args clock e = refl
  host_call_keeps_stats log args clock e = refl
  host_call_keeps_stats warn args clock e = refl
  host_call_keeps_stats error args clock e = refl
  host_call_keeps_stats get_state args clock e = refl
