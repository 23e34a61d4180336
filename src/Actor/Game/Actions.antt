-- ===== src/Actor/Game/Actions.antt =====
-- Player actions: when the script of a room sees one, and what its failure tells.
use mathlib.Core.List.{append-nil, append_assoc}
use online_game.Prelude.{
  String, ◌≡◌, Option, none, some, List, [], ◌∷◌, ◌++◌, ◌&&◌, arith, if◌then◌else◌, Option-cases,
  inl, inr,
}
use online_game.Prelude.Dict.{has_key}
use online_game.Prelude.Equality.{string_eq}
use online_game.Prelude.Int.{pos}
use online_game.Prelude.Value.{str, int, object}
use online_game.Actor.Message.{Message, value, Payload}
use online_game.Actor.Mailbox.{state_of}
use online_game.Actor.Game.{Effect, send_to, EngineInterface, GameActor, Environment}
use online_game.Actor.Game.Membership.{error_data}
use online_game.Actor.Game.Play.{handle_player_action}

-- The arguments of the hook "onPlayerAction".
abbrev pub action_args : Message → List Payload
action_args msg = value (str msg.player_id) ∷ value (str msg.action) ∷ msg.payload ∷ []

-- What a player is told when the script fails on their action.
abbrev pub script_error : Message → Option String → List Effect
script_error msg none = []
script_error msg (some e) =
    send_to msg.player_id "error"
      (object (("code", int (pos 47001)) ∷ ("message", str "脚本执行错误") ∷ ("detail", str e) ∷ []))
    ∷ []

module _ {E : Type 0} (engine : EngineInterface E) (env : Environment) where
  -- While a game is on, the action of a player in the room runs the script's hook once, and the
  -- player, nobody else, is told of its error. Before the game the player is told so, and the
  -- action of one who is not in the room does nothing; in both cases the script does not run.
  handle_player_action_lem :
      (msg : Message) (ga : GameActor E) (x : E)
      → ga.engine ≡ some x
      → let after = state_of (handle_player_action engine env msg ga) in
        let ran = engine.trigger_hook "onPlayerAction" (action_args msg) x in
        (after.engine
          ≡ some (if ga.is_playing && has_key msg.player_id ga.players then ran.engine else x))
        × (after.effects
            ≡ ga.effects
              ++ (if ga.is_playing
                  then (if has_key msg.player_id ga.players
                      then ran.sent ++ script_error msg ran.error
                      else [])
                  else send_to msg.player_id "error" (error_data 46001 "游戏尚未开始") ∷ []))
  unfolding handle_player_action
  handle_player_action_lem msg ga x e =
      let ran = engine.trigger_hook "onPlayerAction" (action_args msg) x in
      elim (Option-cases ran.error) [
        | inl quiet ↦ ground (arith, e, quiet, append-nil ga.effects, append-nil ran.sent)
        | inr (t, told) ↦ ground (
          arith,
          e,
          told,
          append-nil ga.effects,
          append_assoc ga.effects ran.sent (script_error msg (some t)),
        )
      ]
