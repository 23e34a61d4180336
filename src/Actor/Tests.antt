-- ===== src/Actor/Tests.antt =====
-- Runs of the actors on small inputs, and the theorems at inputs where their hypotheses hold.
use online_game.Prelude.{
  ℕ, ◌+◌, ◌*◌, ◌%◌, nat_beq, String, ◌≡◌, ◌⊎◌, refl, true, false, none, some, List, [], ◌∷◌, arith,
  if◌then◌else◌,
}
use online_game.Prelude.Equality.{string_eq}
use online_game.Prelude.Int.{pos}
use online_game.Actor.Mailbox.{
  ok, failed, Handler, BaseActor, new_base_actor, parked, looping, draining, leaving, Event, starts,
  sends, stops, receives, sees_done, drains, leaves, send, run, step,
}
use online_game.Actor.Mailbox.Order
use online_game.Actor.Mailbox.Order.{progress, handle_all, accepted}
use online_game.Actor.Mailbox.Shutdown
use online_game.Actor.Mailbox.Shutdown.{moves_left, is_own}
use online_game.Actor.System.{Actor, ActorSystem}
use online_game.Actor.System.Laws.{KeepsId}

-- A mailbox of numbers whose handler adds them up and refuses 7.
abbrev adder : Handler ℕ ℕ
adder m s = if nat_beq m 7 then failed s "seven" else ok (s + m)

abbrev inbox_of : List ℕ → BaseActor ℕ ℕ
inbox_of ms = record {
  id = "a";
  inbox = ms;
  inbox_cap = 3;
  phase = looping;
  running = true;
  cancelled = true;
  processed = 0;
  errors = 0;
  state = 0;
}

abbrev busy_day : List (Event ℕ)
busy_day = starts ∷ sends 4 ∷ sends 7 ∷ receives ∷ sends 2 ∷ receives ∷ stops ∷ []

abbrev evening : BaseActor ℕ ℕ
evening = record {
  id = "a";
  inbox = 2 ∷ [];
  inbox_cap = 2;
  phase = looping;
  running = true;
  cancelled = true;
  processed = 2;
  errors = 1;
  state = 4;
}

busy_day-run : run adder busy_day (new_base_actor "a" 0 (pos 2)) ≡ some evening
unfolding run step new_base_actor
busy_day-run = refl

run_in_order_example :
    handle_all adder
      (accepted adder busy_day (new_base_actor "a" 0 (pos 2)))
      (record { state = 0; processed = 0; errors = 0 })
    ≡ handle_all adder (2 ∷ []) (record { state = 4; processed = 2; errors = 1 })
unfolding new_base_actor
run_in_order_example =
    Order.run_in_order adder busy_day (new_base_actor "a" 0 (pos 2)) evening busy_day-run

-- The loop still takes a message after `Stop`, then `drain` begins.
abbrev closing_time : List (Event ℕ)
closing_time = receives ∷ sees_done ∷ drains ∷ []

abbrev nearly_done : BaseActor ℕ ℕ
nearly_done = record (inbox_of (2 ∷ [])) { phase = draining; processed = 2; errors = 1; state = 4 }

stop_drains_example :
    (3 + moves_left nearly_done ≡ 3 + 3)
    × (handle_all adder (2 ∷ []) (record { state = 4; processed = 2; errors = 1 })
        ≡ handle_all adder (4 ∷ 7 ∷ 2 ∷ []) (record { state = 0; processed = 0; errors = 0 }))
    × (((nearly_done.phase ≡ parked)
          × (nearly_done.inbox ≡ [])
          × (nearly_done.running ≡ false)
          × (progress nearly_done
              ≡ handle_all adder
                  (4 ∷ 7 ∷ 2 ∷ [])
                  (record { state = 0; processed = 0; errors = 0 })))
        ⊎ ((e : Event ℕ) × (c : BaseActor ℕ ℕ) × (is_own e ≡ true)
            × (step adder e nearly_done ≡ some c)))
unfolding run step
stop_drains_example =
    Shutdown.stop_drains adder closing_time (inbox_of (4 ∷ 7 ∷ 2 ∷ [])) nearly_done refl refl refl
      refl

late_send_lost_example :
    let a : BaseActor ℕ ℕ = record (inbox_of []) { phase = leaving } in
    ((send 5 a).1 ≡ none)
    × ((b : BaseActor ℕ ℕ) × (run adder (sends 5 ∷ leaves ∷ []) a ≡ some b)
        × (b.inbox ≡ 5 ∷ [])
        × (b.running ≡ false)
        × (progress b ≡ progress a)
        × (step adder receives b ≡ none)
        × (step adder sees_done b ≡ none)
        × (step adder drains b ≡ none)
        × (step adder leaves b ≡ none))
late_send_lost_example =
    Shutdown.late_send_lost adder 5 (record (inbox_of []) { phase = leaving }) refl refl
      (omega arith)

-- The registry over plain numbers: the id of an actor is "even" or "odd".
abbrev parity : ℕ → String
parity n = if nat_beq (n % 2) 0 then "even" else "odd"

abbrev numbers : Actor ℕ ℕ String
numbers = record {
  id = parity;
  start = λ n. n + 2;
  send = λ m n. (n + 2 * m, none);
  stop = λ t n. (n, none);
}

parity_twice : (m n : ℕ) → parity (n + 2 * m) ≡ parity n
parity_twice m n = ground arith

numbers-KeepsId : KeepsId numbers
numbers-KeepsId = record { start = λ n. ground arith; send = parity_twice }

abbrev three : ActorSystem ℕ
three = record { actors = ("odd", 3) ∷ []; count = pos 1 }
