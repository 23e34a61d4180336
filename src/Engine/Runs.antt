-- ===== src/Engine/Runs.antt =====
-- What every host function keeps, every run of a script keeps.
use online_game.Prelude.{ℕ, ◌≡◌, refl, ◌⊎◌, inl, inr, List, String}
use online_game.Prelude.Value.{Value}
use online_game.Engine.{HostFn, Program, finished, threw, calls, Runtime, GojaEngine, RoomAdapter}
use online_game.Engine.Host.{Called, answers, panics, Reply, Run, host_call, run, resume, at_vm}

Called-cases : (c : Called) → (c ≡ panics) ⊎ ((a : Value) × (c ≡ answers a))
Called-cases (answers a) = inr (a, refl)
Called-cases panics = inl refl

module _ {V : Type 0} (runtime : Runtime V) (room : RoomAdapter) (number : ℕ → String)
    (P : GojaEngine V → Type 0) where
  resume_keeps :
      (v : V) (r : Reply V) (k : Value → GojaEngine V → Run V)
      → ((e : GojaEngine V) → P e → P (at_vm runtime room number v e))
      → ((a : Value) (e : GojaEngine V) → P e → P (k a e).engine)
      → P r.engine
      → P (resume runtime room number v r k).engine
  resume_keeps v r k vm next h = elim (Called-cases r.called) [
    | inl e ↦ rw e (vm r.engine h)
    | inr (a, e) ↦ rw e (next a r.engine h)
  ]

  pub run_keeps :
      ((v : V) (e : GojaEngine V) → P e → P (at_vm runtime room number v e))
      → ((fn : HostFn) (args : List Value) (clock : ℕ → ℕ) (e : GojaEngine V)
          → P e
          → P (host_call runtime room number fn args clock e).engine)
      → (p : Program V) (e : GojaEngine V) → P e
      → P (run runtime room number p e).engine
  unfolding run
  run_keeps vm host (finished value v) e h = vm v e h
  run_keeps vm host (threw message fired v) e h = vm v e h
  run_keeps vm host (calls fn args clock v next) e h =
      resume_keeps v (host_call runtime room number fn args clock e)
        (λ a. run runtime room number (next a)) (vm v) (λ a e' h'. run_keeps vm host (next a) e' h')
        (host fn args clock e h)
