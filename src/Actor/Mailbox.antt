-- ===== src/Actor/Mailbox.antt =====
-- pkg/actor/actor.go: an actor is an inbox channel and one goroutine that runs the handler on one
-- message at a time. The handler's own state is `S`, the messages are `M`.
pub mod Laws
pub mod State
pub mod Order
pub mod Shutdown
use online_game.Prelude.{
  ℕ, suc, ◌+◌, String, Bool, true, false, Option, none, some, List, [], ◌∷◌, ◌++◌, ltb, length,
  if◌then◌else◌,
}
use online_game.Prelude.Int.{ℤ, pos, negsuc}

-- What a call of the handler does: it returns nil or an error, or it panics. The handler changes
-- its state in place, so the state is there in every case.
pub data Handled (S : Type 0) : Type 0 where
  ok : S → Handled S
  failed : S → String → Handled S
  panicked : S → Handled S

-- The state after the call, whatever it returned.
abbrev pub state_of : {S : Type 0} → Handled S → S
state_of (ok s) = s
state_of (failed s e) = s
state_of (panicked s) = s

abbrev pub Handler : Type 0 → Type 0 → Type 0
Handler M S = M → S → Handled S

-- Where the actor's goroutine stands: not started or gone, in the loop of `run`, in `drain`, or
-- past `drain` and before the deferred `running.Store(false)`.
pub data Phase : Type 0 where
  parked looping draining leaving : Phase

pub record BaseActor (M S : Type 0) : Type 0 where
  pub id : String
  pub inbox : List M
  pub inbox_cap : ℕ
  pub phase : Phase
  pub running : Bool
  pub cancelled : Bool
  pub processed : ℕ
  pub errors : ℕ
  pub state : S

pub data SendError : Type 0 where
  not_running inbox_full : SendError

-- `if inboxCap <= 0 { inboxCap = 256 }`
abbrev pub capacity_of : ℤ → ℕ
capacity_of (pos ℕ.zero) = 256
capacity_of (pos (suc n)) = suc n
capacity_of (negsuc n) = 256

module _ {M S : Type 0} where
  unfoldable pub new_base_actor : String → S → ℤ → BaseActor M S
  new_base_actor id state inbox_cap = record {
    id = id;
    inbox = [];
    inbox_cap = capacity_of inbox_cap;
    phase = parked;
    running = false;
    cancelled = false;
    processed = 0;
    errors = 0;
    state = state;
  }

  -- `running.CompareAndSwap(false, true)`, then the goroutine.
  unfoldable pub start : BaseActor M S → BaseActor M S
  start a = if a.running then a else record a { running = true; phase = looping }

  -- `processed` is not counted for a message whose handler panics.
  abbrev after_handler : BaseActor M S → Handled S → BaseActor M S
  after_handler a (ok s) = record a { state = s; processed = a.processed + 1 }
  after_handler a (failed s e) = record a {
    state = s;
    errors = a.errors + 1;
    processed = a.processed + 1;
  }
  after_handler a (panicked s) = record a { state = s; errors = a.errors + 1 }

  -- `Send` is the load of `running` and the non-blocking channel send, taken as one step.
  unfoldable pub send : M → BaseActor M S → BaseActor M S × Option SendError
  send m a =
      if a.running
      then if ltb (length a.inbox) a.inbox_cap
        then (record a { inbox = a.inbox ++ m ∷ [] }, none)
        else (a, some inbox_full)
      else (a, some not_running)

  -- The first statement of `Stop`. Waiting for the goroutine changes no state.
  unfoldable pub cancel : BaseActor M S → BaseActor M S
  cancel a = record a { cancelled = true }

  -- `Stop`: nil if the goroutine is gone when it looks, and an error if its context ends first.
  unfoldable pub stop : Bool → BaseActor M S → BaseActor M S × Bool
  unfolding cancel
  stop timed_out a = (cancel a, timed_out)

  module _ (handler : Handler M S) where
    unfoldable pub process_message : M → BaseActor M S → BaseActor M S
    process_message m a = after_handler a (handler m a.state)

    -- A goroutine's receive: the oldest message leaves the channel and is handled.
    receive_from : List M → BaseActor M S → Option (BaseActor M S)
    unfolding process_message
    receive_from [] a = none
    receive_from (m ∷ rest) a = some (process_message m (record a { inbox = rest }))

    -- `case msg := <-a.inbox` of the loop in `run`.
    loop_receive : Phase → BaseActor M S → Option (BaseActor M S)
    unfolding receive_from
    loop_receive looping a = receive_from a.inbox a
    loop_receive p a = none

    -- `case <-a.ctx.Done()`
    loop_done : Phase → BaseActor M S → Option (BaseActor M S)
    loop_done looping a = if a.cancelled then some (record a { phase = draining }) else none
    loop_done p a = none

    -- A round of `drain`: a message, or `default: return`.
    drain_round : List M → BaseActor M S → BaseActor M S
    unfolding process_message
    drain_round [] a = record a { phase = leaving }
    drain_round (m ∷ rest) a = process_message m (record a { inbox = rest })

    drain_step : Phase → BaseActor M S → Option (BaseActor M S)
    unfolding drain_round
    drain_step draining a = some (drain_round a.inbox a)
    drain_step p a = none

    -- The deferred `running.Store(false)` of `run`.
    leave : Phase → BaseActor M S → Option (BaseActor M S)
    leave leaving a = some (record a { running = false; phase = parked })
    leave p a = none

    -- `drain` with nobody sending: it ends, since each round takes a message.
    drain_from : List M → BaseActor M S → BaseActor M S
    unfolding process_message
    drain_from [] a = record a { inbox = []; phase = leaving }
    drain_from (m ∷ rest) a = drain_from rest (process_message m a)

    unfoldable pub drain : BaseActor M S → BaseActor M S
    unfolding drain_from
    drain a = drain_from a.inbox a

-- What happens next: a call from outside, or a move of the actor's goroutine. The scheduler picks.
pub data Event (M : Type 0) : Type 0 where
  starts : Event M
  sends : M → Event M
  stops : Event M
  receives : Event M
  sees_done : Event M
  drains : Event M
  leaves : Event M

module _ {M S : Type 0} (handler : Handler M S) where
  -- `none`: the goroutine cannot make this move now.
  unfoldable pub step : Event M → BaseActor M S → Option (BaseActor M S)
  unfolding start send cancel loop_receive loop_done drain_step leave
  step starts a = some (start a)
  step (sends m) a = some (send m a).0
  step stops a = some (cancel a)
  step receives a = loop_receive handler a.phase a
  step sees_done a = loop_done handler a.phase a
  step drains a = drain_step handler a.phase a
  step leaves a = leave handler a.phase a

  abbrev then_run :
      (BaseActor M S → Option (BaseActor M S)) → Option (BaseActor M S) → Option (BaseActor M S)
  then_run k none = none
  then_run k (some a) = k a

  unfoldable pub run : List (Event M) → BaseActor M S → Option (BaseActor M S)
  run [] a = some a
  run (e ∷ es) a = then_run (run es) (step e a)
