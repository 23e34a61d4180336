-- ===== src/Actor/Mailbox/Shutdown.antt =====
-- Stopping an actor: what its goroutine does when nobody sends, and the message that a late `Send`
-- loses.
use mathlib.Core.List.{append-nil}
use online_game.Prelude.{
  ◌+◌, ◌&&◌, Bool, ◌⊎◌, inl, inr, ap, sym, ◌∙◌, ℕ, suc, ◌<◌, ◌≡◌, refl, true, false, none, some,
  List, [], ◌∷◌, ◌++◌, arith, length,
}
use online_game.Actor.Mailbox.{
  Handler, Phase, starts, stops, parked, looping, draining, leaving, BaseActor, Event, sends,
  receives, sees_done, drains, leaves, send, process_message, drain_from, drain_round, drain, step,
  run,
}
use online_game.Actor.Mailbox.Laws.{run-cons}
use online_game.Actor.Mailbox.Order.{progress, handle_all, taken, step_in_order}

-- What the actor's goroutine does by itself, and not a call from outside.
abbrev pub is_own : {M : Type 0} → Event M → Bool
is_own starts = false
is_own (sends m) = false
is_own stops = false
is_own receives = true
is_own sees_done = true
is_own drains = true
is_own leaves = true

abbrev pub all_own : {M : Type 0} → List (Event M) → Bool
all_own [] = true
all_own (e ∷ es) = is_own e && all_own es

-- The changes of phase that are left.
abbrev pub phases_left : Phase → ℕ
phases_left looping = 3
phases_left draining = 2
phases_left leaving = 1
phases_left parked = 0

abbrev pub moves_left : {M S : Type 0} → BaseActor M S → ℕ
moves_left a = length a.inbox + phases_left a.phase

module _ {M S : Type 0} (handler : Handler M S) where
  drain_from_lem :
      (ms : List M) (a : BaseActor M S)
      → (progress (drain_from handler ms a) ≡ handle_all handler ms (progress a))
        × ((drain_from handler ms a).inbox ≡ [])
        × ((drain_from handler ms a).phase ≡ leaving)
  unfolding drain_from handle_all
  drain_from_lem [] a = (refl, refl, refl)
  drain_from_lem (m ∷ ms) a = ground (arith, drain_from_lem ms (process_message handler m a))

  -- `drain` ends, handles every message of the inbox in order, and leaves the inbox empty.
  drain_lem :
      (a : BaseActor M S)
      → (progress (drain handler a) ≡ handle_all handler a.inbox (progress a))
        × ((drain handler a).inbox ≡ [])
        × ((drain handler a).phase ≡ leaving)
  unfolding drain
  drain_lem a = drain_from_lem a.inbox a

  -- Where a stopped actor stands when nobody sends: the inbox is empty once `drain` has ended.
  abbrev Stopping : BaseActor M S → Type 0
  Stopping a =
      (a.cancelled ≡ true)
      × ((a.phase ≡ looping)
          ⊎ ((a.phase ≡ draining)
              ⊎ (((a.phase ≡ leaving) × (a.inbox ≡ []))
                  ⊎ ((a.phase ≡ parked) × (a.inbox ≡ []) × (a.running ≡ false)))))

  step-Stopping :
      (e : Event M) (a b : BaseActor M S)
      → is_own e ≡ true
      → step handler e a ≡ some b
      → Stopping a
      → Stopping b × (suc (moves_left b) ≡ moves_left a)
  unfolding step process_message
  step-Stopping starts a b own moved s = ground arith
  step-Stopping (sends m) a b own moved s = ground arith
  step-Stopping stops a b own moved s = ground arith
  step-Stopping receives a b own moved s = ground arith
  step-Stopping sees_done a b own moved s = ground arith
  step-Stopping drains a b own moved s = ground arith
  step-Stopping leaves a b own moved s = ground arith

  -- An own move takes no message in.
  step-own :
      (e : Event M) (a b : BaseActor M S)
      → is_own e ≡ true
      → step handler e a ≡ some b
      → handle_all handler b.inbox (progress b) ≡ handle_all handler a.inbox (progress a)
  unfolding taken
  step-own starts a b own moved = ground arith
  step-own (sends m) a b own moved = ground arith
  step-own stops a b own moved = ground arith
  step-own receives a b own moved =
      ground (arith, append-nil a.inbox, step_in_order handler receives a b moved)
  step-own sees_done a b own moved =
      ground (arith, append-nil a.inbox, step_in_order handler sees_done a b moved)
  step-own drains a b own moved =
      ground (arith, append-nil a.inbox, step_in_order handler drains a b moved)
  step-own leaves a b own moved =
      ground (arith, append-nil a.inbox, step_in_order handler leaves a b moved)

  run-Stopping :
      (es : List (Event M)) (a b : BaseActor M S)
      → all_own es ≡ true
      → run handler es a ≡ some b
      → Stopping a
      → Stopping b
        × (length es + moves_left b ≡ moves_left a)
        × (handle_all handler b.inbox (progress b) ≡ handle_all handler a.inbox (progress a))
  unfolding run
  run-Stopping [] a b own ran s = ground arith
  run-Stopping (e ∷ es) a b own ran s =
      let (c, moved, rest) = run-cons handler e es a b ran in
      let (first, one) = step-Stopping e a c (ground arith) moved s in
      let (last, more, same) = run-Stopping es c b (ground arith) rest first in
      (last, omega (arith, one, more), same ∙ step-own e a c (ground arith) moved)

  -- A goroutine that is not gone has a move.
  goes_on :
      (a : BaseActor M S)
      → Stopping a
      → ((a.phase ≡ parked) × (a.inbox ≡ []) × (a.running ≡ false))
        ⊎ ((e : Event M) × (b : BaseActor M S) × (is_own e ≡ true) × (step handler e a ≡ some b))
  unfolding step
  goes_on a (stopped, inl on) =
      inr (sees_done, record a { phase = draining }, refl, ground (arith, on, stopped))
  goes_on a (stopped, inr (inl on)) =
      inr (drains, drain_round handler a.inbox a, refl, ground (arith, on))
  goes_on a (stopped, inr (inr (inl on))) =
      inr (leaves, record a { running = false; phase = parked }, refl, ground (arith, on))
  goes_on a (stopped, inr (inr (inr gone))) = inl gone

  -- Once an actor in its loop is stopped and nobody sends, then whichever moves its goroutine makes: it
  -- has made and has left together three more moves than there were messages; what it has handled and
  -- what is still in the inbox are together the messages of the inbox, in order; and it is gone, with an
  -- empty inbox and every message handled, or it has a move. So it ends, after all of its messages.
  pub stop_drains :
      (es : List (Event M)) (a b : BaseActor M S)
      → a.phase ≡ looping
      → a.cancelled ≡ true
      → all_own es ≡ true
      → run handler es a ≡ some b
      → (length es + moves_left b ≡ length a.inbox + 3)
        × (handle_all handler b.inbox (progress b) ≡ handle_all handler a.inbox (progress a))
        × (((b.phase ≡ parked)
              × (b.inbox ≡ [])
              × (b.running ≡ false)
              × (progress b ≡ handle_all handler a.inbox (progress a)))
            ⊎ ((e : Event M) × (c : BaseActor M S) × (is_own e ≡ true)
                × (step handler e b ≡ some c)))
  unfolding handle_all
  stop_drains es a b p c own ran =
      let (last, count, same) = run-Stopping es a b own ran (c, inl p) in
      (
        ground (arith, count, p),
        same,
        elim (goes_on b last) [
          | inl (gone, empty, quiet) ↦
              inl (
                gone,
                empty,
                quiet,
                ap (λ ms. handle_all handler ms (progress b)) (sym empty) ∙ same,
              )
          | inr more ↦ inr more
        ],
      )

  -- A message sent after the last look of `drain` and before `running` is cleared is accepted, and
  -- it stays in the inbox of an actor whose goroutine is gone: no move handles it.
  pub late_send_lost :
      (m : M) (a : BaseActor M S)
      → a.phase ≡ leaving
      → a.running ≡ true
      → length a.inbox < a.inbox_cap
      → ((send m a).1 ≡ none)
        × ((b : BaseActor M S) × (run handler (sends m ∷ leaves ∷ []) a ≡ some b)
            × (b.inbox ≡ a.inbox ++ m ∷ [])
            × (b.running ≡ false)
            × (progress b ≡ progress a)
            × (step handler receives b ≡ none)
            × (step handler sees_done b ≡ none)
            × (step handler drains b ≡ none)
            × (step handler leaves b ≡ none))
  unfolding run step send
  late_send_lost m a p r h = (
    ground arith,
    (
      record a { inbox = a.inbox ++ m ∷ []; running = false; phase = parked },
      ground arith,
      refl,
      refl,
      refl,
      refl,
      refl,
      refl,
      refl,
    ),
  )
