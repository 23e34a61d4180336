-- ===== src/Actor/Mailbox/Laws.antt =====
-- What holds of an actor between two moves, and when `Send` refuses.
use online_game.Prelude.{
  ℕ, suc, String, ◌≤◌, ◌<◌, ◌≡◌, refl, ◌⊎◌, Bool, true, false, not, none, some, List, [], ◌∷◌, ◌++◌,
  arith, length, length-append, Option-cases, inl, inr,
}
use online_game.Prelude.Int.{ℤ, pos, negsuc}
use online_game.Actor.Mailbox.{
  Handler, Phase, parked, draining, leaving, BaseActor, not_running, inbox_full, Event, starts,
  sends, stops, receives, sees_done, drains, leaves, capacity_of, new_base_actor, send, step, run,
}

abbrev pub is_parked : Phase → Bool
is_parked parked = true
is_parked p = false

abbrev pub is_winding_down : Phase → Bool
is_winding_down draining = true
is_winding_down leaving = true
is_winding_down p = false

pub record IsValid {M S : Type 0} (a : BaseActor M S) : Type 0 where
  pub has_room : 0 < a.inbox_cap
  pub bounded : length a.inbox ≤ a.inbox_cap
  pub running_iff : a.running ≡ not (is_parked a.phase)
  pub stopping : is_winding_down a.phase ≡ true → a.cancelled ≡ true

capacity_of-pos : (n : ℤ) → 0 < capacity_of n
capacity_of-pos (pos ℕ.zero) = omega arith
capacity_of-pos (pos (suc n)) = omega arith
capacity_of-pos (negsuc n) = omega arith

module _ {M S : Type 0} where
  pub new_base_actor-IsValid :
      (id : String) (s : S) (n : ℤ) → IsValid (new_base_actor {M = M} id s n)
  unfolding new_base_actor
  new_base_actor-IsValid id s n = record {
    has_room = capacity_of-pos n;
    bounded = omega arith;
    running_iff = refl;
    stopping = λ h. cc;
  }

  -- A send fails only on an actor that is not running or whose inbox is full, and then changes
  -- nothing; otherwise the message is the last of the inbox.
  pub send_cases :
      (m : M) (a : BaseActor M S)
      → ((a.running ≡ false) × (send m a ≡ (a, some not_running)))
        ⊎ (((a.running ≡ true) × (a.inbox_cap ≤ length a.inbox) × (send m a ≡ (a, some inbox_full)))
            ⊎ ((a.running ≡ true)
                × (length a.inbox < a.inbox_cap)
                × (send m a ≡ (record a { inbox = a.inbox ++ m ∷ [] }, none))))
  unfolding send
  send_cases m a = ground arith

  module _ (handler : Handler M S) where
    -- Every move keeps the invariant.
    pub step-IsValid :
        (e : Event M) (a b : BaseActor M S) → step handler e a ≡ some b → IsValid a → IsValid b
    unfolding step
    step-IsValid starts a b h v = ground arith
    step-IsValid (sends m) a b h v = ground (arith, length-append a.inbox (m ∷ []))
    step-IsValid stops a b h v = ground arith
    step-IsValid receives a b h v = ground arith
    step-IsValid sees_done a b h v = ground arith
    step-IsValid drains a b h v = ground arith
    step-IsValid leaves a b h v = ground arith

    -- A history that happens splits at its first move.
    pub run-cons :
        (e : Event M) (es : List (Event M)) (a b : BaseActor M S)
        → run handler (e ∷ es) a ≡ some b
        → (c : BaseActor M S) × (step handler e a ≡ some c) × (run handler es c ≡ some b)
    unfolding run
    run-cons e es a b h = elim (Option-cases (step handler e a)) [
      | inl stuck ↦ absurd (ground arith)
      | inr (c, moved) ↦ (c, moved, ground arith)
    ]

    -- The invariant holds after every history.
    run-IsValid :
        (es : List (Event M)) (a b : BaseActor M S)
        → run handler es a ≡ some b
        → IsValid a
        → IsValid b
    unfolding run
    run-IsValid [] a b h v = ground arith
    run-IsValid (e ∷ es) a b h v =
        let (c, moved, rest) = run-cons e es a b h in
        run-IsValid es c b rest (step-IsValid e a c moved v)
