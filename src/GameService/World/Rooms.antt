-- ===== src/GameService/World/Rooms.antt =====
-- The rooms in the registry: what the calls of the service and the moves of the goroutines keep of
-- them.
use mathlib.Core.Path.{subst}
use online_game.Prelude.{
  ℕ, String, ◌≡◌, refl, ◌∙◌, sym, some, [], ◌∷◌, arith, Option-cases, inl, inr, Bool-cases,
}
use online_game.Prelude.Dict.{Dict, lookup, insert}
use online_game.Prelude.Equality.{◌==◌, string_eq}
use online_game.Actor.Message.{
  Payload, player_join_data, Message, MsgType, player_join, player_leave, player_ready,
}
use online_game.Actor.Mailbox.{
  Handler, BaseActor, Event, step, new_base_actor, run, start, starts, send, sends, ok, state_of,
}
use online_game.Actor.Mailbox.Laws as MailboxLaws
use online_game.Actor.Mailbox.State.{run-keeps}
use online_game.Actor.Game.{
  PlayerState, GameActor, GameActorConfig, new_room, EngineInterface, Environment, trigger,
}
use online_game.Actor.Game.Invariant as Invariant
use online_game.Actor.Game.Histories.{handle_message-IsValid}
use online_game.Actor.Game.Play.{
  new_game_actor, actor_id_of, handle_message, dispatch, handle_player_action, handle_game_start,
  handle_game_tick, handle_timer, handle_restore, handle_shutdown,
}
use online_game.Actor.Game.Membership.{
  join_with, joined, left, transfer_owner, close_if_empty, announce_all_ready, handle_player_join,
  handle_player_leave, handle_player_ready,
}

-- Every value of a map.
module _ {A : Type 0} (P : A → Type 0) where
  abbrev pub Every : Dict String A → Type 0
  Every [] = Unit {0}
  Every ((k, a) ∷ m) = P a × Every m

  pub Every-insert : (k : String) (a : A) (m : Dict String A) → P a → Every m → Every (insert k a m)
  unfolding insert
  Every-insert k a [] p v = (p, tt)
  Every-insert k a ((j, b) ∷ m) p v = ground (arith, Every-insert k a m p v.1)

  pub Every-lookup : (k : String) (a : A) (m : Dict String A) → lookup k m ≡ some a → Every m → P a
  unfolding lookup
  Every-lookup k a [] h v = absurd (cc)
  Every-lookup k a ((j, b) ∷ m) h v = elim (Bool-cases (j == k)) [
    | inl here ↦ subst P (ground (arith, here)) v.0
    | inr off ↦ Every-lookup k a m (ground (arith, off)) v.1
  ]

-- A room in the registry: its mailbox and its seats are in order, and it goes by the id of its game
-- and its room.
pub record RoomOk {E : Type 0} (a : BaseActor Message (GameActor E)) : Type 0 where
  pub mailbox : MailboxLaws.IsValid a
  pub seats : Invariant.IsValid a.state
  pub named : a.id ≡ actor_id_of a.state.game_id a.state.room_id

-- The two rooms have the same names.
pub record SameNames {E : Type 0} (ga ga' : GameActor E) : Type 0 where
  pub game : ga'.game_id ≡ ga.game_id
  pub room : ga'.room_id ≡ ga.room_id

module _ {E : Type 0} (engine : EngineInterface E) (env : Environment) where
  join_with-SameNames :
      (p : Payload) (msg : Message) (ga : GameActor E)
      → SameNames ga (state_of (join_with engine env p msg ga))
  unfolding join_with joined trigger
  join_with-SameNames (player_join_data info) msg ga = ground arith
  join_with-SameNames p msg ga = record { game = refl; room = refl }

  left-SameNames :
      (msg : Message) (player : PlayerState) (ga : GameActor E)
      → SameNames ga (left engine env msg player ga)
  unfolding left transfer_owner close_if_empty trigger
  left-SameNames msg player ga = ground arith

  handle_player_leave-SameNames :
      (msg : Message) (ga : GameActor E)
      → SameNames ga (state_of (handle_player_leave engine env msg ga))
  unfolding handle_player_leave
  handle_player_leave-SameNames msg ga = elim (Option-cases (lookup msg.player_id ga.players)) [
    | inl absent ↦ rw (absent, handle_player_leave) (record { game = refl; room = refl })
    | inr (player, seated) ↦ rw (seated, handle_player_leave) (left-SameNames msg player ga)
  ]

  handle_player_ready-SameNames :
      (msg : Message) (ga : GameActor E)
      → SameNames ga (state_of (handle_player_ready engine env msg ga))
  unfolding handle_player_ready announce_all_ready
  handle_player_ready-SameNames msg ga = ground arith

  dispatch-SameNames :
      (kind : MsgType) (msg : Message) (ga : GameActor E)
      → SameNames ga (state_of (dispatch engine env kind msg ga))
  unfolding dispatch handle_player_action handle_game_start handle_game_tick handle_timer
      handle_restore handle_shutdown handle_player_join
  dispatch-SameNames player_join msg ga = ground (arith, join_with-SameNames msg.payload msg ga)
  dispatch-SameNames player_leave msg ga = handle_player_leave-SameNames msg ga
  dispatch-SameNames player_ready msg ga = handle_player_ready-SameNames msg ga
  dispatch-SameNames kind msg ga = ground arith

  handle_message-SameNames :
      (msg : Message) (ga : GameActor E)
      → SameNames ga (state_of (handle_message engine env msg ga))
  unfolding handle_message
  handle_message-SameNames msg ga = dispatch-SameNames msg.kind msg ga

  abbrev Named : String → String → GameActor E → Type 0
  Named game room ga = (ga.game_id ≡ game) × (ga.room_id ≡ room)

  handle_message-Named :
      (game room : String) (msg : Message) (ga : GameActor E)
      → Named game room ga
      → Named game room (state_of (handle_message engine env msg ga))
  handle_message-Named game room msg ga (g, r) =
      let same = handle_message-SameNames msg ga in (same.game ∙ g, same.room ∙ r)

  pub step-id :
      (e : Event Message) (a b : BaseActor Message (GameActor E))
      → step (handle_message engine env) e a ≡ some b
      → b.id ≡ a.id
  unfolding step
  step-id e a b h = ground arith

  step-run :
      (e : Event Message) (a b : BaseActor Message (GameActor E))
      → step (handle_message engine env) e a ≡ some b
      → run (handle_message engine env) (e ∷ []) a ≡ some b
  unfolding run
  step-run e a b h = rw h refl

  -- Every move of a room's goroutine, and every call of its mailbox, leaves the room in order.
  pub step-RoomOk :
      (e : Event Message) (a b : BaseActor Message (GameActor E))
      → step (handle_message engine env) e a ≡ some b
      → RoomOk a
      → RoomOk b
  step-RoomOk e a b h v =
      let ran = step-run e a b h in
      let (game, room) =
        run-keeps (handle_message engine env) (Named a.state.game_id a.state.room_id)
          (handle_message-Named a.state.game_id a.state.room_id) (e ∷ []) a b ran (refl, refl) in
      record {
        mailbox = MailboxLaws.step-IsValid (handle_message engine env) e a b h v.mailbox;
        seats =
            run-keeps (handle_message engine env) Invariant.IsValid
              (handle_message-IsValid engine env) (e ∷ []) a b ran v.seats;
        named = rw (game, room) (step-id e a b h ∙ v.named);
      }

module _ {E : Type 0} where
  quiet : Handler Message (GameActor E)
  quiet m ga = ok ga

  send-state : (m : Message) (a : BaseActor Message (GameActor E)) → (send m a).0.state ≡ a.state
  unfolding send
  send-state m a = ground arith

  send-id : (m : Message) (a : BaseActor Message (GameActor E)) → (send m a).0.id ≡ a.id
  unfolding send
  send-id m a = ground arith

  -- A message that is sent, or refused, leaves the room in order.
  pub send-RoomOk :
      (m : Message) (a : BaseActor Message (GameActor E)) → RoomOk a → RoomOk (send m a).0
  unfolding step
  send-RoomOk m a v = record {
    mailbox = MailboxLaws.step-IsValid quiet (sends m) a _ refl v.mailbox;
    seats = subst Invariant.IsValid (sym (send-state m a)) v.seats;
    named = rw (send-state, send-id) v.named;
  }

  -- A new room is in order when it is started.
  pub new_room-RoomOk :
      (cfg : GameActorConfig E) (now : ℕ) → RoomOk (start (new_game_actor cfg now))
  unfolding start new_game_actor new_room new_base_actor step
  new_room-RoomOk cfg now = record {
    mailbox = MailboxLaws.step-IsValid quiet starts _ _ refl (
        MailboxLaws.new_base_actor-IsValid (actor_id_of cfg.game_id cfg.room_id) (new_room cfg now)
          cfg.inbox_cap);
    seats = Invariant.new_room-IsValid cfg now;
    named = ground arith;
  }
