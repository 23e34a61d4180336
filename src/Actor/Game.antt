-- ===== src/Actor/Game.antt =====
-- pkg/actor/game_actor.go: the actor of one game room. Its handlers run one at a time on the
-- goroutine of the mailbox. What they hand to the hub, to the room manager and to the engine's
-- hooks is kept in `effects`, oldest first.
pub mod Membership
pub mod Play
pub mod Invariant
pub mod Quiet
pub mod Seats
pub mod Readiness
pub mod Actions
mod Tests
pub mod Histories
pub mod Lifecycle
use online_game.Prelude.{ℕ, String, Bool, true, false, Option, none, some, List, [], ◌∷◌, ◌++◌}
use online_game.Prelude.Dict.{Dict}
use online_game.Prelude.Int.{ℤ}
use online_game.Prelude.Value.{Value}
use online_game.Actor.Message.{Message, Payload}

pub record PlayerState : Type 0 where
  pub id : String
  pub nickname : String
  pub avatar : String
  pub is_ready : Bool
  pub is_online : Bool
  pub joined_at : ℕ
  pub metadata : Value

-- A call of `HubInterface` (room or player, event, data), or of `RoomManagerInterface`.
pub data Effect : Type 0 where
  broadcast_to_room : String → String → Value → Effect
  send_to : String → String → Value → Effect
  send_except : String → String → String → Value → Effect
  update_room_status : String → String → Effect
  record_game_results : String → Value → Effect

-- What a call of `TriggerHook` does: the engine afterwards, what the script sent, and the error.
pub record Hooked (E : Type 0) : Type 0 where
  pub engine : E
  pub sent : List Effect
  pub error : Option String

-- `EngineInterface`. `destroy` also tells whether the call panicked.
pub record EngineInterface (E : Type 0) : Type 0 where
  pub trigger_hook : String → List Payload → E → Hooked E
  pub destroy : E → E × Bool

pub record GameActor (E : Type 0) : Type 0 where
  pub game_id : String
  pub room_id : String
  pub game_code : String
  pub engine : Option E
  pub players : Dict String PlayerState
  pub owner_id : String
  pub max_players : ℤ
  pub is_playing : Bool
  pub tick_count : ℕ
  pub created_at : ℕ
  pub effects : List Effect

-- What the runtime decides: the time at which a message is handled, and the position at which the
-- iteration over the player map begins.
pub record Environment : Type 0 where
  pub now : Message → ℕ
  pub first : Message → Dict String PlayerState → ℕ

pub record GameActorConfig (E : Type 0) : Type 0 where
  pub game_id : String
  pub room_id : String
  pub game_code : String
  pub max_players : ℤ
  pub inbox_cap : ℤ
  pub engine : Option E

abbrev pub emit : {E : Type 0} → Effect → GameActor E → GameActor E
emit e ga = record ga { effects = ga.effects ++ e ∷ [] }

module _ {E : Type 0} where
  -- The room's part of `NewGameActor`; `Game.Play.new_game_actor` adds the mailbox.
  unfoldable pub new_room : GameActorConfig E → ℕ → GameActor E
  new_room cfg now = record {
    game_id = cfg.game_id;
    room_id = cfg.room_id;
    game_code = cfg.game_code;
    engine = cfg.engine;
    players = [];
    owner_id = "";
    max_players = cfg.max_players;
    is_playing = false;
    tick_count = 0;
    created_at = now;
    effects = [];
  }

module _ {E : Type 0} (engine : EngineInterface E) where
  -- `if ga.engine != nil { ga.engine.TriggerHook(...) }`, with the error that it returns.
  unfoldable pub trigger : String → List Payload → GameActor E → GameActor E × Option String
  trigger hook args ga = elim ga.engine [
    | none ↦ (ga, none)
    | some e ↦
        let r = engine.trigger_hook hook args e in
        (record ga { engine = some r.engine; effects = ga.effects ++ r.sent }, r.error)
  ]
