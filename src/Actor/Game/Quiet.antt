-- ===== src/Actor/Game/Quiet.antt =====
-- pkg/actor/game_actor.go with an engine that answers the room's hooks with nothing.
use mathlib.Core.List.{append-nil}
use online_game.Prelude.{
  String, true, nat_beq, length, if◌then◌else◌, false, Bool, ◌≡◌, ◌+◌, refl, Option, none, some, [],
  ◌∷◌, arith, List, inl, inr, Option-cases,
}
use online_game.Prelude.Dict.{lookup, insert, delete}
use online_game.Prelude.Equality.{string_eq}
use online_game.Actor.Message.{
  PlayerJoinData, Message, Payload, value, timer_data, player_join_data, MsgType, player_join,
  player_leave, player_ready, player_action, game_start, game_tick, timer, restore, shutdown, other,
}
use online_game.Prelude.Value.{int, str, object}
use online_game.Actor.Mailbox.{Handled, state_of}
use online_game.Actor.Game.{
  EngineInterface, GameActor, Environment, emit, trigger, PlayerState, update_room_status,
}
use online_game.Actor.Game.Membership.{
  newcomer, leave_reason, joined, join_with, handle_player_join, transfer_owner, close_if_empty,
  left, handle_player_leave, announce_all_ready, handle_player_ready,
}
use online_game.Actor.Game.Play.{
  handle_player_action, handle_game_start, delta_ms, handle_game_tick, fire_timer, handle_timer,
  handle_restore, dispatch, handle_message,
}

-- The hooks that a room's actor calls.
pub data RoomHook : Type 0 where
  on_player_join on_player_leave on_player_action on_game_start on_tick on_timer on_restore
        on_game_end :
      RoomHook

-- The messages that leave a room its engine.
abbrev pub keeps_engine : MsgType → Bool
keeps_engine shutdown = false
keeps_engine k = true

abbrev pub hook_name : RoomHook → String
hook_name on_player_join = "onPlayerJoin"
hook_name on_player_leave = "onPlayerLeave"
hook_name on_player_action = "onPlayerAction"
hook_name on_game_start = "onGameStart"
hook_name on_tick = "onTick"
hook_name on_timer = "onTimer"
hook_name on_restore = "onRestore"
hook_name on_game_end = "onGameEnd"

-- The same room with no engine.
abbrev pub bare : {E : Type 0} → GameActor E → GameActor E
bare ga = record ga { engine = none }

module _ {E : Type 0} (I : E → Type 0) where
  abbrev pub Armed : Option E → Type 0
  Armed none = ⊥
  Armed (some e) = I e

  -- Engines in `I` send nothing and report no error, and stay in `I`.
  pub record Quiet (engine : EngineInterface E) : Type 0 where
    pub sent :
        (h : RoomHook) (args : List Payload) (e : E)
        → I e
        → (engine.trigger_hook (hook_name h) args e).sent ≡ []
    pub error :
        (h : RoomHook) (args : List Payload) (e : E)
        → I e
        → (engine.trigger_hook (hook_name h) args e).error ≡ none
    pub stays :
        (h : RoomHook) (args : List Payload) (e : E)
        → I e
        → I (engine.trigger_hook (hook_name h) args e).engine

  module _ (engine : EngineInterface E) (quiet : Quiet engine) (env : Environment) where
    trigger-on :
        (h : RoomHook) (args : List Payload) (ga : GameActor E) (o : Option E)
        → ga.engine ≡ o
        → Armed o
        → (bare (trigger engine (hook_name h) args ga).0 ≡ bare ga)
          × ((trigger engine (hook_name h) args ga).1 ≡ none)
          × Armed (trigger engine (hook_name h) args ga).0.engine
    unfolding trigger
    trigger-on h args ga none off armed = absurd armed
    trigger-on h args ga (some e) on armed = rw on (
      rw (quiet.sent h args e armed, append-nil ga.effects) refl,
      quiet.error h args e armed,
      quiet.stays h args e armed,
    )

    trigger-quiet :
        (h : RoomHook) (args : List Payload) (ga : GameActor E)
        → Armed ga.engine
        → (bare (trigger engine (hook_name h) args ga).0 ≡ bare ga)
          × ((trigger engine (hook_name h) args ga).1 ≡ none)
          × Armed (trigger engine (hook_name h) args ga).0.engine
    trigger-quiet h args ga armed = trigger-on h args ga ga.engine refl armed

    -- A handler does the same with the engine and without.
    abbrev Follows : (GameActor E → Handled (GameActor E)) → GameActor E → Type 0
    Follows f ga =
        (bare (state_of (f ga)) ≡ state_of (f (bare ga))) × Armed (state_of (f ga)).engine

    joined-Follows :
        (msg : Message) (info : PlayerJoinData) (ga : GameActor E)
        → Armed ga.engine
        → (bare (joined engine env msg info ga) ≡ joined engine env msg info (bare ga))
          × Armed (joined engine env msg info ga).engine
    unfolding joined trigger
    joined-Follows msg info ga armed =
        let seated = record ga {
          owner_id = if nat_beq (length ga.players) 0 then msg.player_id else ga.owner_id;
          players = insert msg.player_id (newcomer env msg info) ga.players;
        } in
        let (same, calm, still) =
          trigger-quiet on_player_join
            (value (str msg.player_id)
              ∷ value (object (("nickname", str info.nickname) ∷ ("avatar", str info.avatar) ∷ []))
              ∷ [])
            seated armed in
        (ground (arith, same), ground (arith, still))

    join_with-Follows :
        (msg : Message) (p : Payload) (ga : GameActor E)
        → Armed ga.engine
        → Follows (join_with engine env p msg) ga
    unfolding join_with
    join_with-Follows msg (player_join_data info) ga armed = joined-Follows msg info ga armed
    join_with-Follows msg p ga armed = (refl, armed)

    join-Follows :
        (msg : Message) (ga : GameActor E)
        → Armed ga.engine
        → Follows (handle_player_join engine env msg) ga
    unfolding handle_player_join
    join-Follows msg ga armed =
        let (same, still) = join_with-Follows msg msg.payload ga armed in
        (ground (arith, same), ground (arith, still, armed))

    left-Follows :
        (msg : Message) (player : PlayerState) (ga : GameActor E)
        → Armed ga.engine
        → (bare (left engine env msg player ga) ≡ left engine env msg player (bare ga))
          × Armed (left engine env msg player ga).engine
    unfolding left transfer_owner close_if_empty trigger
    left-Follows msg player ga armed =
        let gone = record ga { players = delete msg.player_id ga.players } in
        let (same, calm, still) =
          trigger-quiet on_player_leave
            (value (str msg.player_id) ∷ value (str (leave_reason msg.payload)) ∷ []) gone armed in
        (ground (arith, same), ground (arith, still))

    leave-Follows :
        (msg : Message) (ga : GameActor E)
        → Armed ga.engine
        → Follows (handle_player_leave engine env msg) ga
    unfolding handle_player_leave
    leave-Follows msg ga armed = elim (Option-cases (lookup msg.player_id ga.players)) [
      | inl absent ↦ rw (absent, handle_player_leave) (refl, armed)
      | inr (player, there) ↦ rw (there, handle_player_leave) (left-Follows msg player ga armed)
    ]

    ready-Follows :
        (msg : Message) (ga : GameActor E)
        → Armed ga.engine
        → Follows (handle_player_ready engine env msg) ga
    unfolding handle_player_ready announce_all_ready
    ready-Follows msg ga armed = elim (Option-cases (lookup msg.player_id ga.players)) [
      | inl absent ↦ rw (absent, handle_player_ready) (refl, armed)
      | inr (player, there) ↦ (ground (arith, there), ground (arith, there, armed))
    ]

    action-Follows :
        (msg : Message) (ga : GameActor E)
        → Armed ga.engine
        → Follows (handle_player_action engine env msg) ga
    unfolding handle_player_action trigger
    action-Follows msg ga armed =
        let (same, calm, still) =
          trigger-quiet on_player_action
            (value (str msg.player_id) ∷ value (str msg.action) ∷ msg.payload ∷ []) ga armed in
        (ground (arith, same, calm), ground (arith, still, armed, calm))

    start-Follows :
        (msg : Message) (ga : GameActor E)
        → Armed ga.engine
        → Follows (handle_game_start engine env msg) ga
    unfolding handle_game_start trigger
    start-Follows msg ga armed =
        let playing =
          emit (update_room_status ga.room_id "playing") (record ga { is_playing = true }) in
        let (same, calm, still) = trigger-quiet on_game_start [] playing armed in
        (ground (arith, same), ground (arith, still, armed))

    tick-Follows :
        (msg : Message) (ga : GameActor E)
        → Armed ga.engine
        → Follows (handle_game_tick engine env msg) ga
    unfolding handle_game_tick trigger
    tick-Follows msg ga armed =
        let (same, calm, still) =
          trigger-quiet on_tick (value (delta_ms msg.payload) ∷ [])
            (record ga { tick_count = ga.tick_count + 1 }) armed in
        (ground (arith, same), ground (arith, still, armed))

    restore-Follows :
        (msg : Message) (ga : GameActor E)
        → Armed ga.engine
        → Follows (handle_restore engine env msg) ga
    unfolding handle_restore trigger
    restore-Follows msg ga armed =
        let (same, calm, still) = trigger-quiet on_restore (msg.payload ∷ []) ga armed in
        (same, still)

    timer-Follows :
        (msg : Message) (p : Payload) (ga : GameActor E)
        → Armed ga.engine
        → (bare (fire_timer engine env p ga) ≡ fire_timer engine env p (bare ga))
          × Armed (fire_timer engine env p ga).engine
    unfolding fire_timer trigger
    timer-Follows msg (timer_data d) ga armed =
        let (same, calm, still) = trigger-quiet on_timer (value (int d.id) ∷ []) ga armed in
        (same, still)
    timer-Follows msg p ga armed = (refl, armed)

    dispatch-Follows :
        (k : MsgType) (msg : Message) (ga : GameActor E)
        → keeps_engine k ≡ true
        → Armed ga.engine
        → Follows (dispatch engine env k msg) ga
    unfolding dispatch handle_timer
    dispatch-Follows player_join msg ga keeps armed = join-Follows msg ga armed
    dispatch-Follows player_leave msg ga keeps armed = leave-Follows msg ga armed
    dispatch-Follows player_ready msg ga keeps armed = ready-Follows msg ga armed
    dispatch-Follows player_action msg ga keeps armed = action-Follows msg ga armed
    dispatch-Follows game_start msg ga keeps armed = start-Follows msg ga armed
    dispatch-Follows game_tick msg ga keeps armed = tick-Follows msg ga armed
    dispatch-Follows timer msg ga keeps armed = timer-Follows msg msg.payload ga armed
    dispatch-Follows restore msg ga keeps armed = restore-Follows msg ga armed
    dispatch-Follows shutdown msg ga keeps armed = ground (arith, keeps)
    dispatch-Follows (other n) msg ga keeps armed = (refl, armed)

    -- With a quiet engine a room handles a message that is no shutdown as it does without an engine.
    pub handle_message-Follows :
        (msg : Message) (ga : GameActor E)
        → keeps_engine msg.kind ≡ true
        → Armed ga.engine
        → (bare (state_of (handle_message engine env msg ga))
            ≡ state_of (handle_message engine env msg (bare ga)))
          × Armed (state_of (handle_message engine env msg ga)).engine
    unfolding handle_message
    handle_message-Follows msg ga keeps armed = dispatch-Follows msg.kind msg ga keeps armed
