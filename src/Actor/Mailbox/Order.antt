-- ===== src/Actor/Mailbox/Order.antt =====
-- The mailbox against its specification: whatever the scheduler does, the handler sees the messages
-- that `Send` accepted, one at a time and in the order of acceptance.
use mathlib.Core.List.{append-nil, append_assoc}
use online_game.Prelude.{ℕ, ◌+◌, ◌≡◌, refl, Option, none, some, List, [], ◌∷◌, ◌++◌, arith}
use online_game.Actor.Mailbox.{
  Handled, ok, failed, panicked, Handler, BaseActor, Event, starts, sends, stops, receives,
  sees_done, drains, leaves, SendError, send, step, run,
}
use online_game.Actor.Mailbox.Laws.{run-cons}

-- What the handler has done: its state, and the two counters of `Stats`.
pub record Progress (S : Type 0) : Type 0 where
  pub state : S
  pub processed : ℕ
  pub errors : ℕ

abbrev pub progress : {M S : Type 0} → BaseActor M S → Progress S
progress a = record { state = a.state; processed = a.processed; errors = a.errors }

abbrev pub note : {S : Type 0} → Progress S → Handled S → Progress S
note p (ok s) = record { state = s; processed = p.processed + 1; errors = p.errors }
note p (failed s e) = record { state = s; processed = p.processed + 1; errors = p.errors + 1 }
note p (panicked s) = record { state = s; processed = p.processed; errors = p.errors + 1 }

-- A message enters the inbox if `Send` returned nil.
abbrev taken_if : {M : Type 0} → M → Option SendError → List M
taken_if m none = m ∷ []
taken_if m (some e) = []

module _ {M S : Type 0} where
  unfoldable pub taken : Event M → BaseActor M S → List M
  taken (sends m) a = taken_if m (send m a).1
  taken e a = []

module _ {M S : Type 0} (handler : Handler M S) where
  -- The sequential program that the actor stands for.
  unfoldable pub handle_all : List M → Progress S → Progress S
  handle_all [] p = p
  handle_all (m ∷ ms) p = handle_all ms (note p (handler m p.state))

  handle_all-append :
      (xs ys : List M) (p : Progress S) → handle_all (xs ++ ys) p ≡ handle_all ys (handle_all xs p)
  unfolding handle_all
  handle_all-append [] ys p = refl
  handle_all-append (x ∷ xs) ys p = handle_all-append xs ys (note p (handler x p.state))

  -- The messages that the sends of a history put into the inbox.
  pub accepted : List (Event M) → BaseActor M S → List M
  unfolding taken
  accepted [] a = []
  accepted (e ∷ es) a = elim (step handler e a) [ none ↦ [] | some b ↦ taken e a ++ accepted es b ]

  pub step_in_order :
      (e : Event M) (a b : BaseActor M S)
      → step handler e a ≡ some b
      → handle_all (a.inbox ++ taken e a) (progress a) ≡ handle_all b.inbox (progress b)
  unfolding step taken handle_all
  step_in_order starts a b h = ground (arith, append-nil a.inbox)
  step_in_order (sends m) a b h = ground (arith, append-nil a.inbox)
  step_in_order stops a b h = ground (arith, append-nil a.inbox)
  step_in_order receives a b h = ground (arith, append-nil a.inbox)
  step_in_order sees_done a b h = ground (arith, append-nil a.inbox)
  step_in_order drains a b h = ground (arith, append-nil a.inbox)
  step_in_order leaves a b h = ground (arith, append-nil a.inbox)

  -- Whatever the interleaving, the handler has run on a prefix of the accepted messages, in order,
  -- and what is left of them is the inbox.
  pub run_in_order :
      (es : List (Event M)) (a b : BaseActor M S)
      → run handler es a ≡ some b
      → handle_all (a.inbox ++ accepted es a) (progress a) ≡ handle_all b.inbox (progress b)
  unfolding run accepted
  run_in_order [] a b h = ground (arith, append-nil a.inbox)
  run_in_order (e ∷ es) a b h =
      let (c, moved, rest) = run-cons handler e es a b h in
      rw
        (
          moved,
          accepted,
          ← append_assoc a.inbox (taken e a),
          handle_all-append,
          step_in_order e a c moved,
          ← handle_all-append,
        )
        (run_in_order es c b rest)
