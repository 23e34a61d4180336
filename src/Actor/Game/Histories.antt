-- ===== src/Actor/Game/Histories.antt =====
-- What every message and every history of a room's actor keeps.
use online_game.Prelude.{ℕ, ◌≡◌, refl, Bool, true, false, some, List, arith}
use online_game.Prelude.Equality.{string_eq}
use online_game.Actor.Message.{MsgType, player_join, player_leave, player_ready, Message}
use online_game.Actor.Mailbox.{state_of, BaseActor, new_base_actor, Event, run}
use online_game.Actor.Mailbox.State.{run-keeps}
use online_game.Actor.Game.{EngineInterface, GameActor, Environment, GameActorConfig}
use online_game.Actor.Game.Play.{
  handle_player_action, handle_game_start, handle_game_tick, handle_timer, handle_restore,
  handle_shutdown, dispatch, handle_message, new_game_actor,
}
use online_game.Actor.Game.Invariant.{
  IsValid, new_room-IsValid, handle_player_join-IsValid, handle_player_leave-IsValid,
  handle_player_ready-IsValid,
}

-- The two rooms have the same players, owner and size.
pub record SameSeats {E : Type 0} (ga ga' : GameActor E) : Type 0 where
  pub players : ga'.players ≡ ga.players
  pub owner : ga'.owner_id ≡ ga.owner_id
  pub size : ga'.max_players ≡ ga.max_players

-- The kinds of message that only the membership handlers serve.
abbrev pub is_membership : MsgType → Bool
is_membership player_join = true
is_membership player_leave = true
is_membership player_ready = true
is_membership kind = false

module _ {E : Type 0} (engine : EngineInterface E) (env : Environment) where
  dispatch-SameSeats :
      (kind : MsgType) (msg : Message) (ga : GameActor E)
      → is_membership kind ≡ false
      → SameSeats ga (state_of (dispatch engine env kind msg ga))
  unfolding dispatch handle_player_action handle_game_start handle_game_tick handle_timer
      handle_restore handle_shutdown
  dispatch-SameSeats player_join msg ga h = absurd (cc)
  dispatch-SameSeats player_leave msg ga h = absurd (cc)
  dispatch-SameSeats player_ready msg ga h = absurd (cc)
  dispatch-SameSeats _ msg ga h = ground arith

  -- Only joining, leaving and getting ready change the seats of a room.
  handle_message-SameSeats :
      (msg : Message) (ga : GameActor E)
      → is_membership msg.kind ≡ false
      → SameSeats ga (state_of (handle_message engine env msg ga))
  unfolding handle_message
  handle_message-SameSeats msg ga h = dispatch-SameSeats msg.kind msg ga h

  IsValid-SameSeats : (ga ga' : GameActor E) → SameSeats ga ga' → IsValid ga → IsValid ga'
  IsValid-SameSeats ga ga' s v = record {
    unique = rw (s.players) v.unique;
    seated = rw (s.players) v.seated;
    not_over_full = rw (s.players, s.size) v.not_over_full;
    owner_present = rw (s.players, s.owner) v.owner_present;
  }

  dispatch-IsValid :
      (kind : MsgType) (msg : Message) (ga : GameActor E)
      → IsValid ga
      → IsValid (state_of (dispatch engine env kind msg ga))
  unfolding dispatch
  dispatch-IsValid player_join msg ga v = handle_player_join-IsValid engine env msg ga v
  dispatch-IsValid player_leave msg ga v = handle_player_leave-IsValid engine env msg ga v
  dispatch-IsValid player_ready msg ga v = handle_player_ready-IsValid engine env msg ga v
  dispatch-IsValid kind msg ga v = IsValid-SameSeats ga _ (dispatch-SameSeats kind msg ga refl) v

  -- Every message keeps the invariant of a room, also one whose handler fails or panics.
  pub handle_message-IsValid :
      (msg : Message) (ga : GameActor E)
      → IsValid ga
      → IsValid (state_of (handle_message engine env msg ga))
  unfolding handle_message
  handle_message-IsValid msg ga v = dispatch-IsValid msg.kind msg ga v

  -- The room behind its mailbox keeps the invariant whatever the scheduler does.
  pub actor-IsValid :
      (cfg : GameActorConfig E) (now : ℕ) (es : List (Event Message))
      (b : BaseActor Message (GameActor E))
      → run (handle_message engine env) es (new_game_actor cfg now) ≡ some b
      → IsValid b.state
  unfolding new_game_actor new_base_actor
  actor-IsValid cfg now es b h =
      run-keeps (handle_message engine env) IsValid handle_message-IsValid es
        (new_game_actor cfg now) b h (new_room-IsValid cfg now)
