-- ===== src/Actor/Game/Lifecycle.antt =====
-- When a room's game begins and ends.
use online_game.Prelude.{◌≡◌, inl, inr, Bool, true, false, List, [], ◌∷◌, ◌++◌, arith, Option-cases}
use mathlib.Core.List.{append_assoc}
use mathlib.Core.Path.{subst}
use online_game.Prelude.Dict.{lookup}
use online_game.Prelude.Equality.{string_eq}
use online_game.Prelude.Value.{str, object}
use online_game.Actor.Message.{
  MsgType, player_join, player_leave, player_ready, game_start, shutdown, Message, Payload,
  PlayerJoinData, player_join_data,
}
use online_game.Actor.Mailbox.{state_of}
use online_game.Actor.Game.{
  PlayerState, Effect, broadcast_to_room, update_room_status, EngineInterface, GameActor,
  Environment, trigger,
}
use online_game.Actor.Game.Membership.{
  joined, join_with, left, transfer_owner, close_if_empty, announce_all_ready, handle_player_join,
  handle_player_leave, handle_player_ready,
}
use online_game.Actor.Game.Play.{
  handle_player_action, handle_game_start, handle_game_tick, handle_timer, handle_restore,
  handle_shutdown, dispatch, handle_message,
}

-- Whether a game is on after a message of this kind.
abbrev pub playing_after : MsgType → Bool → Bool
playing_after game_start b = true
playing_after shutdown b = false
playing_after kind b = b

-- What `handleGameStart` tells the room.
abbrev start_message : {E : Type 0} → GameActor E → Effect
start_message ga =
    broadcast_to_room ga.room_id "game_start" (object (("roomID", str ga.room_id) ∷ []))

module _ {E : Type 0} (engine : EngineInterface E) (env : Environment) where
  -- A handler that starts or ends no game, and leaves the room's name alone.
  record SamePlay (ga ga' : GameActor E) : Type 0 where
    playing : ga'.is_playing ≡ ga.is_playing
    room : ga'.room_id ≡ ga.room_id

  joined-SamePlay :
      (msg : Message) (info : PlayerJoinData) (ga : GameActor E)
      → SamePlay ga (joined engine env msg info ga)
  unfolding joined trigger
  joined-SamePlay msg info ga = ground arith

  join_with-SamePlay :
      (p : Payload) (msg : Message) (ga : GameActor E)
      → SamePlay ga (state_of (join_with engine env p msg ga))
  unfolding join_with
  join_with-SamePlay (player_join_data info) msg ga = joined-SamePlay msg info ga
  join_with-SamePlay _ msg ga = ground arith

  left-SamePlay :
      (msg : Message) (p : PlayerState) (ga : GameActor E) → SamePlay ga (left engine env msg p ga)
  unfolding left trigger transfer_owner close_if_empty
  left-SamePlay msg p ga = ground arith

  dispatch-playing :
      (kind : MsgType) (msg : Message) (ga : GameActor E)
      → (state_of (dispatch engine env kind msg ga)).is_playing ≡ playing_after kind ga.is_playing
  unfolding dispatch handle_player_join handle_player_leave handle_player_ready announce_all_ready
      handle_player_action handle_game_start handle_game_tick handle_timer handle_restore
      handle_shutdown
  dispatch-playing player_join msg ga = ground (arith, join_with-SamePlay msg.payload msg ga)
  dispatch-playing player_leave msg ga = elim (Option-cases (lookup msg.player_id ga.players)) [
    | inl missing ↦ ground (arith, missing)
    | inr (p, found) ↦ ground (arith, found, left-SamePlay msg p ga)
  ]
  dispatch-playing player_ready msg ga = elim (Option-cases (lookup msg.player_id ga.players)) [
    | inl missing ↦ ground (arith, missing)
    | inr (p, found) ↦ ground (arith, found)
  ]
  dispatch-playing kind msg ga = ground arith

  -- A game begins with a start message and ends with a shutdown message, and with no other.
  handle_message-playing :
      (msg : Message) (ga : GameActor E)
      → (state_of (handle_message engine env msg ga)).is_playing
        ≡ playing_after msg.kind ga.is_playing
  unfolding handle_message
  handle_message-playing msg ga = dispatch-playing msg.kind msg ga

  start_effects :
      (n : Message) (ga : GameActor E)
      → ga.is_playing ≡ false
      → (l : List Effect) × ((state_of (handle_game_start engine env n ga)).effects
          ≡ ga.effects ++ update_room_status ga.room_id "playing" ∷ l)
  unfolding handle_game_start trigger
  start_effects n ga quiet = elim (Option-cases ga.engine) [
    | inl e ↦ (start_message ga ∷ [], rw (quiet, e, handle_game_start, trigger) (simp append_assoc))
    | inr (x, e) ↦ (
      (engine.trigger_hook "onGameStart" [] x).sent ++ start_message ga ∷ [],
      rw (quiet, e, handle_game_start, trigger) (simp append_assoc),
    )
  ]

  start_playing :
      (n : Message) (ga : GameActor E)
      → (state_of (handle_game_start engine env n ga)).is_playing ≡ true
  unfolding handle_game_start trigger
  start_playing n ga = ground arith

  shutdown_room :
      (m : Message) (ga : GameActor E)
      → ((state_of (handle_shutdown engine env m ga)).room_id ≡ ga.room_id)
        × ((state_of (handle_shutdown engine env m ga)).is_playing ≡ false)
  unfolding handle_shutdown trigger
  shutdown_room m ga = ground arith

  -- Shutting a room down does not end it: a start message that comes after sets the room to
  -- "playing" again, whatever state the room was in.
  pub start_after_shutdown :
      (m n : Message) (ga : GameActor E)
      → let closed = state_of (handle_shutdown engine env m ga) in
        let again = state_of (handle_game_start engine env n closed) in
        (closed.is_playing ≡ false)
        × (again.is_playing ≡ true)
        × ((l : List Effect) × (again.effects
              ≡ closed.effects ++ update_room_status ga.room_id "playing" ∷ l))
  start_after_shutdown m n ga =
      let closed = state_of (handle_shutdown engine env m ga) in
      let again = state_of (handle_game_start engine env n closed) in
      let (room, quiet) = shutdown_room m ga in
      let (l, sent) = start_effects n closed quiet in
      (
        quiet,
        start_playing n closed,
        (
          l,
          subst (λ r. again.effects ≡ closed.effects ++ update_room_status r "playing" ∷ l) room
              sent,
        ),
      )
