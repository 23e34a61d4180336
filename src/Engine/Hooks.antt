-- ===== src/Engine/Hooks.antt =====
-- Hooks and the end of an engine: what is counted and reported, and what a panic does.
use online_game.Prelude.{
  ℕ, ◌+◌, ◌≡◌, refl, ◌∙◌, ◌⊎◌, inl, inr, Bool, true, false, Option, none, some, List, [], ◌∷◌,
  String, arith, if◌then◌else◌, Option-cases, nat_beq_iff,
}
use online_game.Prelude.Dict.{lookup, delete, lookup-delete}
use online_game.Prelude.Equality.{◌==◌, nat_eq}
use online_game.Prelude.Int.{ℤ}
use online_game.Prelude.Value.{Value, nil}
use online_game.Actor.Message.{Message, Payload}
use online_game.Actor.Mailbox.{Handled}
use online_game.Actor.Game.{Environment, GameActor}
use online_game.Actor.Game.Play.{handle_shutdown, end_game, destroy_engine}
use online_game.Engine.{
  clear_interval, Program, calls, Runtime, started, placeholder, GojaEngine, RoomAdapter,
  EngineStats,
}
use online_game.Engine.Host.{
  Ended, returned, raised, panicked, Run, host_call, run, clear_timer, clear_entry, argument,
}
use online_game.Engine.Goja.{
  HookResult, trigger_hook, run_hook, after_run, stop_timers, destroy, engine_interface,
}
use online_game.Engine.Runs.{run_keeps}
use online_game.Engine.Timers.{host_call_keeps_stats}

-- What `TriggerHook` adds to the statistics: one execution and its time, and one error if the
-- script threw or the host panicked, but no error is returned for a panic.
abbrev pub Counted : EngineStats → ℕ → EngineStats → HookResult → Type 0
Counted before elapsed after result =
    (after.execute_count ≡ before.execute_count + 1)
    × (after.total_exec_time_ms ≡ before.total_exec_time_ms + elapsed)
    × (((after.error_count ≡ before.error_count) × (result.error ≡ none))
        ⊎ (after.error_count ≡ before.error_count + 1))

module _ {V : Type 0} (runtime : Runtime V) (room : RoomAdapter) (number : ℕ → String)
    (text : ℤ → String) where
  run-stats :
      (p : Program V) (e : GojaEngine V) → (run runtime room number p e).engine.stats ≡ e.stats
  run-stats p e =
      run_keeps runtime room number (λ e'. e'.stats ≡ e.stats) (λ v e' h. h)
        (λ fn args clock e' h. host_call_keeps_stats runtime room number fn args clock e' ∙ h) p e
        refl

  Ended-cases :
      (r : Ended)
      → ((v : Value) × (r ≡ returned v))
        ⊎ ((m : String) × (b : Bool) × (r ≡ raised m b))
        ⊎ (r ≡ panicked)
  Ended-cases (returned v) = inl (v, refl)
  Ended-cases (raised m b) = inr (inl (m, b, refl))
  Ended-cases panicked = inr (inr refl)

  after_run-Counted :
      (name : String) (elapsed : ℕ) (r : Run V)
      → let out = after_run runtime room number text name elapsed r in
        Counted r.engine.stats elapsed out.0.stats out.2
  after_run-Counted name elapsed r = elim (Ended-cases r.ended) [
    | inl (v, e) ↦ rw e (refl, refl, inl (omega arith, refl))
    | inr (inl (m, b, e)) ↦ rw e (refl, refl, inr refl)
    | inr (inr e) ↦ rw e (refl, refl, inr refl)
  ]

  run_hook-Counted :
      (name : String) (elapsed : ℕ) (args : List Payload) (f : Option (List Payload → Program V))
      (e : GojaEngine V)
      → let out = run_hook runtime room number text name elapsed args f e in
        Counted e.stats elapsed out.0.stats out.2
  unfolding run_hook
  run_hook-Counted name elapsed args none e = (refl, refl, inl (omega arith, refl))
  run_hook-Counted name elapsed args (some f) e =
      let p = f args in
      rw (run-stats p e) at (after_run-Counted name elapsed (run runtime room number p e))

  trigger_hook_on :
      (elapsed : ℕ) (name : String) (args : List Payload) (e : GojaEngine V) (v : V)
      → e.vm ≡ some v
      → trigger_hook runtime room number text elapsed name args e
        ≡ run_hook runtime room number text name elapsed args (runtime.hook name v) e
  unfolding trigger_hook
  trigger_hook_on elapsed name args e v on = ground arith

  -- While there is a machine, a hook adds one execution and its time to the statistics, and one error
  -- if an error is returned. An error may be counted and none returned; never the other way round.
  trigger_hook-Counted :
      (elapsed : ℕ) (name : String) (args : List Payload) (e : GojaEngine V) (v : V)
      → e.vm ≡ some v
      → let out = trigger_hook runtime room number text elapsed name args e in
        Counted e.stats elapsed out.0.stats out.2
  trigger_hook-Counted elapsed name args e v on =
      rw (trigger_hook_on elapsed name args e v on)
        (run_hook-Counted name elapsed args (runtime.hook name v) e)

  -- A hook that clears the id of an interval ends there by a panic, and its caller is told nothing:
  -- the result is nil without an error, and only the statistics have the error.
  interval_hook_silent :
      (elapsed : ℕ) (name : String) (args : List Payload) (e : GojaEngine V) (v w : V)
      (f : List Payload → Program V) (values : List Value) (clock : ℕ → ℕ)
      (next : Value → Program V)
      → e.vm ≡ some v
      → runtime.hook name v ≡ some f
      → f args ≡ calls clear_interval values clock w next
      → lookup (runtime.to_integer (argument 0 values)) e.timers ≡ some placeholder
      → let out = trigger_hook runtime room number text elapsed name args e in
        (out.1 ≡ [])
        × (out.2 ≡ record { value = nil; error = none })
        × (out.0.stats.error_count ≡ e.stats.error_count + 1)
        × (out.0.timers ≡ e.timers)
  unfolding trigger_hook run_hook run host_call clear_timer clear_entry
  interval_hook_silent elapsed name args e v w f values clock next on hook program interval =
      rw (on, hook, program, interval) (refl, refl, refl, refl)

abbrev pub visits : ℕ → List ℕ → Bool
visits id [] = false
visits id (i ∷ ids) = if i == id then true else visits id ids

module _ {V : Type 0} where
  stop_timers-panics :
      (ids : List ℕ) (id : ℕ) (e : GojaEngine V)
      → lookup id e.timers ≡ some placeholder
      → visits id ids ≡ true
      → (stop_timers ids e).1 ≡ true
  unfolding stop_timers clear_entry
  stop_timers-panics [] id e interval seen = cc
  stop_timers-panics (i ∷ ids) id e interval seen = elim (Option-cases (lookup i e.timers)) [
    | inl missing ↦
        let rest = stop_timers-panics ids id e interval (ground (arith, nat_beq_iff i id)) in
        ground (arith, rest)
    | inr (started, timer) ↦
        let rest =
          stop_timers-panics ids id
            (record e { timers = delete i e.timers; pending = delete i e.pending })
            (ground (arith, lookup-delete i id e.timers, nat_beq_iff i id))
            (ground (arith, nat_beq_iff i id)) in
        ground (arith, rest)
    | inr (placeholder, other) ↦ ground arith
  ]

  -- `Destroy` panics if the script has ever started an interval: the machine is not given up.
  destroy-panics :
      (order : GojaEngine V → List ℕ) (id : ℕ) (e : GojaEngine V)
      → lookup id e.timers ≡ some placeholder
      → visits id (order e) ≡ true
      → (destroy order e).1 ≡ true
  unfolding destroy
  destroy-panics order id e interval seen =
      ground (arith, stop_timers-panics (order e) id e interval seen)

-- A room that is not playing and whose engine has an interval cannot be shut down: the handler
-- panics, and nothing is told or written.
pub shutdown_interval :
    {V : Type 0} (runtime : Runtime V) (room : RoomAdapter) (number : ℕ → String)
    (text : ℤ → String) (elapsed : String → List Payload → GojaEngine V → ℕ)
    (order : GojaEngine V → List ℕ) (env : Environment) (msg : Message)
    (ga : GameActor (GojaEngine V)) (e : GojaEngine V) (id : ℕ)
    → ga.is_playing ≡ false
    → ga.engine ≡ some e
    → lookup id e.timers ≡ some placeholder
    → visits id (order e) ≡ true
    → let result =
        handle_shutdown (engine_interface runtime room number text elapsed order) env msg ga in
      (result ≡ Handled.panicked (record ga { engine = some (destroy order e).0 }))
unfolding handle_shutdown end_game destroy_engine engine_interface
shutdown_interval runtime room number text elapsed order env msg ga e id idle on interval seen =
    ground (arith, destroy-panics order id e interval seen)
