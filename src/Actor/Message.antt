-- ===== src/Actor/Message.antt =====
-- pkg/actor/message.go. A payload of type `any` is one constructor for each dynamic type that the
-- code asks for, and `value` for all else. Times are nanoseconds.
use online_game.Prelude.{ℕ, String, Bool}
use online_game.Prelude.Int.{ℤ}
use online_game.Prelude.Value.{Value}

-- `other` holds the integers that no constant names.
pub data MsgType : Type 0 where
  player_join player_leave player_ready player_action game_start game_tick timer restore shutdown :
      MsgType
  other : ℤ → MsgType

pub record PlayerJoinData : Type 0 where
  pub nickname : String
  pub avatar : String
  pub metadata : Value

pub record PlayerLeaveData : Type 0 where
  pub reason : String

-- `Fn` is never set or read.
pub record TimerData : Type 0 where
  pub id : ℤ
  pub once : Bool

pub data Payload : Type 0 where
  player_join_data : PlayerJoinData → Payload
  player_leave_data : PlayerLeaveData → Payload
  timer_data : TimerData → Payload
  value : Value → Payload

pub record Message : Type 0 where
  pub kind : MsgType
  pub player_id : String
  pub action : String
  pub payload : Payload
  pub time : ℕ

-- `now` is what `time.Now()` returns.
unfoldable pub new_message : ℕ → MsgType → String → Payload → Message
new_message now kind player_id payload = record {
  kind = kind;
  player_id = player_id;
  action = "";
  payload = payload;
  time = now;
}

unfoldable pub action_message : ℕ → String → String → Value → Message
action_message now player_id action payload = record {
  kind = player_action;
  player_id = player_id;
  action = action;
  payload = value payload;
  time = now;
}
