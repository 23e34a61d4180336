-- ===== src/Actor/Mailbox/State.antt =====
-- What the handler keeps, the actor keeps.
use mathlib.Core.Path.{subst}
use online_game.Prelude.{◌≡◌, Option, none, some, List, [], ◌∷◌, arith, Bool-cases, inl, inr}
use online_game.Actor.Mailbox.{
  Handler, state_of, Phase, looping, draining, leaving, BaseActor, Event, starts, sends, stops,
  receives, sees_done, drains, leaves, start, send, process_message, receive_from, loop_receive,
  loop_done, drain_round, drain_step, leave, step, run,
}
use online_game.Actor.Mailbox.Laws.{run-cons}

module _ {M S : Type 0} (handler : Handler M S) (P : S → Type 0) where
  abbrev Keeps : Option (BaseActor M S) → Type 0
  Keeps none = Unit {0}
  Keeps (some a) = P a.state

  module _ (kept : (m : M) (s : S) → P s → P (state_of (handler m s))) where
    process_message-state :
        (m : M) (a : BaseActor M S)
        → (process_message handler m a).state ≡ state_of (handler m a.state)
    unfolding process_message
    process_message-state m a = ground arith

    process_message-keeps :
        (m : M) (a : BaseActor M S) → P a.state → P (process_message handler m a).state
    process_message-keeps m a p = rw (process_message-state m a) (kept m a.state p)

    receive_from-Keeps :
        (ms : List M) (a : BaseActor M S) → P a.state → Keeps (receive_from handler ms a)
    unfolding receive_from
    receive_from-Keeps [] a p = tt
    receive_from-Keeps (m ∷ ms) a p = process_message-keeps m (record a { inbox = ms }) p

    drain_round-keeps :
        (ms : List M) (a : BaseActor M S) → P a.state → P (drain_round handler ms a).state
    unfolding drain_round
    drain_round-keeps [] a p = p
    drain_round-keeps (m ∷ ms) a p = process_message-keeps m (record a { inbox = ms }) p

    loop_receive-Keeps :
        (q : Phase) (a : BaseActor M S) → P a.state → Keeps (loop_receive handler q a)
    unfolding loop_receive
    loop_receive-Keeps looping a p = receive_from-Keeps a.inbox a p
    loop_receive-Keeps _ a p = tt

    loop_done-Keeps : (q : Phase) (a : BaseActor M S) → P a.state → Keeps (loop_done handler q a)
    unfolding loop_done
    loop_done-Keeps looping a p = elim (Bool-cases a.cancelled) [
      | inl e ↦ rw (e, loop_done) p
      | inr e ↦ rw (e, loop_done) tt
    ]
    loop_done-Keeps _ a p = tt

    drain_step-Keeps : (q : Phase) (a : BaseActor M S) → P a.state → Keeps (drain_step handler q a)
    unfolding drain_step
    drain_step-Keeps draining a p = drain_round-keeps a.inbox a p
    drain_step-Keeps _ a p = tt

    leave-Keeps : (q : Phase) (a : BaseActor M S) → P a.state → Keeps (leave handler q a)
    unfolding leave
    leave-Keeps leaving a p = p
    leave-Keeps _ a p = tt

    start-state : (a : BaseActor M S) → (start a).state ≡ a.state
    unfolding start
    start-state a = ground arith

    send-state : (m : M) (a : BaseActor M S) → (send m a).0.state ≡ a.state
    unfolding send
    send-state m a = ground arith

    step-Keeps : (e : Event M) (a : BaseActor M S) → P a.state → Keeps (step handler e a)
    unfolding step
    step-Keeps starts a p = rw (start-state a) p
    step-Keeps (sends m) a p = rw (send-state m a) p
    step-Keeps stops a p = p
    step-Keeps receives a p = loop_receive-Keeps a.phase a p
    step-Keeps sees_done a p = loop_done-Keeps a.phase a p
    step-Keeps drains a p = drain_step-Keeps a.phase a p
    step-Keeps leaves a p = leave-Keeps a.phase a p

    -- What every call of the handler keeps, every history of the actor keeps.
    pub run-keeps :
        (es : List (Event M)) (a b : BaseActor M S)
        → run handler es a ≡ some b
        → P a.state
        → P b.state
    unfolding run
    run-keeps [] a b h p = subst Keeps h p
    run-keeps (e ∷ es) a b h p =
        let (c, moved, rest) = run-cons handler e es a b h in
        run-keeps es c b rest (subst Keeps moved (step-Keeps e a p))
