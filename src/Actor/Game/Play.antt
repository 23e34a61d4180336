-- ===== src/Actor/Game/Play.antt =====
-- pkg/actor/game_actor.go: the game itself, and `handleMessage` that picks the handler.
use online_game.Prelude.{
  ℕ, ◌+◌, String, true, false, Option, none, some, [], ◌∷◌, not, if◌then◌else◌,
}
use online_game.Prelude.Dict.{has_key}
use online_game.Prelude.Equality.{string_eq}
use online_game.Prelude.Int.{pos}
use online_game.Prelude.Text.{concat}
use online_game.Prelude.Value.{Value, int, float, str, object}
use online_game.Actor.Message.{
  MsgType, player_join, player_leave, player_ready, player_action, game_start, game_tick, timer,
  restore, shutdown, other, Payload, timer_data, value, Message,
}
use online_game.Actor.Mailbox.{Handled, ok, failed, panicked, BaseActor, new_base_actor}
use online_game.Actor.Game.{
  broadcast_to_room, send_to, update_room_status, EngineInterface, GameActor, Environment,
  GameActorConfig, emit, new_room, trigger,
}
use online_game.Actor.Game.Membership.{
  error_data, handle_player_join, handle_player_leave, handle_player_ready,
}

-- The frame time of a tick: a `float64` payload, or `float64(16)`.
abbrev pub delta_ms : Payload → Value
delta_ms (value (float bits)) = float bits
delta_ms p = float 0x4030000000000000

module _ {E : Type 0} (engine : EngineInterface E) (env : Environment) where
  report_script_error : Message → GameActor E × Option String → GameActor E
  report_script_error msg (ga, none) = ga
  report_script_error msg (ga, some e) =
      emit
        (send_to msg.player_id "error"
          (object (("code", int (pos 47001)) ∷ ("message", str "脚本执行错误") ∷ ("detail", str e) ∷ [])))
        ga

  unfoldable pub handle_player_action : Message → GameActor E → Handled (GameActor E)
  unfolding trigger report_script_error
  handle_player_action msg ga =
      if not ga.is_playing
      then ok (emit (send_to msg.player_id "error" (error_data 46001 "游戏尚未开始")) ga)
      else if not (has_key msg.player_id ga.players)
      then ok ga
      else ok (
          report_script_error msg (
            trigger engine "onPlayerAction"
              (value (str msg.player_id) ∷ value (str msg.action) ∷ msg.payload ∷ []) ga))

  unfoldable pub handle_game_start : Message → GameActor E → Handled (GameActor E)
  unfolding trigger
  handle_game_start msg ga =
      if ga.is_playing
      then ok ga
      else let playing =
          emit (update_room_status ga.room_id "playing") (record ga { is_playing = true }) in
        ok (
          emit
            (broadcast_to_room ga.room_id "game_start" (object (("roomID", str ga.room_id) ∷ [])))
            (trigger engine "onGameStart" [] playing).0)

  unfoldable pub handle_game_tick : Message → GameActor E → Handled (GameActor E)
  unfolding trigger
  handle_game_tick msg ga =
      if not ga.is_playing
      then ok ga
      else ok
          (trigger engine "onTick" (value (delta_ms msg.payload) ∷ [])
            (record ga { tick_count = ga.tick_count + 1 })).0

  unfoldable pub fire_timer : Payload → GameActor E → GameActor E
  unfolding trigger
  fire_timer (timer_data d) ga = (trigger engine "onTimer" (value (int d.id) ∷ []) ga).0
  fire_timer p ga = ga

  unfoldable pub handle_timer : Message → GameActor E → Handled (GameActor E)
  unfolding fire_timer
  handle_timer msg ga = ok (fire_timer msg.payload ga)

  unfoldable pub handle_restore : Message → GameActor E → Handled (GameActor E)
  unfolding trigger
  handle_restore msg ga = ok (trigger engine "onRestore" (msg.payload ∷ []) ga).0

  unfoldable pub end_game : GameActor E → GameActor E
  unfolding trigger
  end_game ga =
      if ga.is_playing
      then record (trigger engine "onGameEnd"
          (value (object (("reason", str "server_shutdown") ∷ [])) ∷ []) ga).0 {
            is_playing = false;
          }
      else ga

  -- A panic in `Destroy` keeps the room's status from being written.
  unfoldable pub destroy_engine : GameActor E → Option E → Handled (GameActor E)
  destroy_engine ga none = ok (emit (update_room_status ga.room_id "closed") ga)
  destroy_engine ga (some e) =
      let (destroyed, panics) = engine.destroy e in
      let after = record ga { engine = some destroyed } in
      if panics then panicked after else ok (emit (update_room_status ga.room_id "closed") after)

  unfoldable pub handle_shutdown : Message → GameActor E → Handled (GameActor E)
  unfolding end_game destroy_engine
  handle_shutdown msg ga = let ended = end_game ga in destroy_engine ended ended.engine

  -- The error's text ends in the number, which is left out.
  unfoldable pub dispatch : MsgType → Message → GameActor E → Handled (GameActor E)
  dispatch player_join msg ga = handle_player_join engine env msg ga
  dispatch player_leave msg ga = handle_player_leave engine env msg ga
  dispatch player_ready msg ga = handle_player_ready engine env msg ga
  dispatch player_action msg ga = handle_player_action msg ga
  dispatch game_start msg ga = handle_game_start msg ga
  dispatch game_tick msg ga = handle_game_tick msg ga
  dispatch timer msg ga = handle_timer msg ga
  dispatch restore msg ga = handle_restore msg ga
  dispatch shutdown msg ga = handle_shutdown msg ga
  dispatch (other n) msg ga = failed ga "unknown message type"

  unfoldable pub handle_message : Message → GameActor E → Handled (GameActor E)
  unfolding dispatch
  handle_message msg ga = dispatch msg.kind msg ga

-- `NewGameActor`: the room behind a mailbox. The id is that of `fmt.Sprintf("game:%s:%s", ...)`.
unfoldable pub actor_id_of : String → String → String
actor_id_of game_id room_id = concat ("game:" ∷ game_id ∷ ":" ∷ room_id ∷ [])

unfoldable pub new_game_actor :
    {E : Type 0} → GameActorConfig E → ℕ → BaseActor Message (GameActor E)
unfolding new_room actor_id_of
new_game_actor cfg now =
    new_base_actor (actor_id_of cfg.game_id cfg.room_id) (new_room cfg now) cfg.inbox_cap
