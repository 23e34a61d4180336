-- ===== src/Websocket/Tests.antt =====
-- Runs of the gateway on small inputs, and the theorems at inputs where their hypotheses hold.
use mathlib.Core.Option
use online_game.Prelude.{
  Bool, ◌++◌, inr, String, ◌≡◌, refl, ◌≢◌, true, false, some, List, [], ◌∷◌, arith, get_elem?,
}
use online_game.Prelude.Dict.{lookup, insert, delete}
use online_game.Prelude.Equality.{string_eq}
use online_game.Prelude.Int.{pos}
use online_game.Prelude.Value.{nil, str}
use text.Mathlib.TextEquality.{eq_iff}
use online_game.Websocket.Gateway.{
  WsMessage, Conn, Gateway, default_gateway_config, panics, after, new_gateway, new_conn, register,
  join_room, add_to_room, unregister, send_json, broadcast_to_room, send_to, serve_ws,
}
use online_game.Websocket.Gateway.Delivery.{Members, broadcast_to_room_lem}
use online_game.Websocket.Gateway.Histories.{Call, serves, unregisters, broadcasts, call, FreshAll}
use online_game.Websocket.Gateway.Reconnect.{reconnect_unreachable, unregister_last}
use online_game.Websocket.Pumps.{
  text_frame, ping, Writer, WriteEvent, offers, takes, ticks, write_run, Sound, flow, accepted,
  write_run_in_order,
}

-- The type of a message stands for its bytes.
abbrev marshal : WsMessage → String
marshal m = m.kind

abbrev conn : String → String → Conn String
conn id player = record {
  id = id;
  player_id = player;
  room_id = "r";
  is_open = true;
  send = [];
  send_cap = 2;
  closed = false;
}

-- Alice and Bob in one room. The second connection of Alice is not registered yet.
abbrev two : Gateway String
two = record {
  heap = conn "c1" "alice" ∷ conn "c2" "bob" ∷ conn "c3" "alice" ∷ [];
  conns = ("c1", 0) ∷ ("c2", 1) ∷ [];
  rooms = ("r", ("alice", 0) ∷ ("bob", 1) ∷ []) ∷ [];
  player_conns = ("alice", 0) ∷ ("bob", 1) ∷ [];
  write_wait = 1;
  pong_wait = 10;
  ping_period = 9;
  max_msg_size = 100;
  send_buf = 2;
  conn_count = pos 2;
  msg_count = 0;
}

-- Bob alone.
abbrev one : Gateway String
one = record two {
  conns = ("c2", 1) ∷ [];
  rooms = ("r", ("bob", 1) ∷ []) ∷ [];
  player_conns = ("bob", 1) ∷ [];
  conn_count = pos 1;
}

room-Members : Members two.heap "r" (("alice", 0) ∷ ("bob", 1) ∷ [])
room-Members = ((conn "c1" "alice", refl, refl, refl), ((conn "c2" "bob", refl, refl, refl), tt))

broadcast_to_room_lem_example :
    get_elem? (broadcast_to_room marshal 5 "r" "chat" (str "hi") two).heap 1
    ≡ Option.map (send_json "chat") (get_elem? two.heap 1)
unfolding lookup
broadcast_to_room_lem_example =
    broadcast_to_room_lem marshal 5 "r" "chat" (str "hi") two (("alice", 0) ∷ ("bob", 1) ∷ []) 1
      refl (refl, (refl, tt)) room-Members

abbrev session : List Call
session =
    serves 1 "c1" "alice" "r"
    ∷ serves 2 "c2" "bob" "r"
    ∷ broadcasts 3 "r" "chat" (str "hi")
    ∷ unregisters "c1"
    ∷ []

session_fresh : FreshAll marshal session (new_gateway default_gateway_config)
unfolding call new_gateway lookup serve_ws new_conn register join_room add_to_room insert
    broadcast_to_room
session_fresh = (refl, (refl, (tt, (tt, tt))))

c1≢c3 : ◌≢◌ {A = String} "c1" "c3"
c1≢c3 = ground (arith, eq_iff "c1" "c3")

r≢nameless : ◌≢◌ {A = String} "r" ""
r≢nameless = ground (arith, eq_iff "r" "")

reconnect_unreachable_example :
    let reconnected = register 2 two in
    let left = after (unregister "c1" reconnected) in
    (lookup "alice" reconnected.player_conns ≡ some 2)
    × (send_to marshal 9 "alice" "turn" nil left ≡ left)
unfolding lookup
reconnect_unreachable_example =
    reconnect_unreachable marshal 9 "turn" nil (conn "c1" "alice") (conn "c3" "alice") 0 2 two refl
      c1≢c3 refl refl refl

unregister_last_example :
    (s : Gateway String) × (unregister "c2" one ≡ panics s) × (lookup "r" s.rooms ≡ some [])
unfolding lookup delete
unregister_last_example =
    unregister_last "c2" 1 (conn "c2" "bob") (("bob", 1) ∷ []) one refl refl r≢nameless refl

abbrev writer : Bool → Writer String
writer send_closed = record {
  conn = record (conn "c1" "alice") { send = "a" ∷ "b" ∷ [] };
  send_closed = send_closed;
  written = [];
  lost = [];
  ended = false;
}

abbrev rough_hour : List (WriteEvent String)
rough_hour = offers "c" ∷ takes true ∷ offers "d" ∷ ticks true ∷ takes false ∷ []

abbrev after_hour : Writer String
after_hour = record {
  conn = record (conn "c1" "alice") { send = "d" ∷ [] };
  send_closed = false;
  written = text_frame "a" ∷ ping ∷ [];
  lost = "b" ∷ [];
  ended = true;
}

rough_hour-run : write_run rough_hour (writer false) ≡ some after_hour
unfolding write_run send_json
rough_hour-run = refl

write_run_in_order_example :
    Sound after_hour × (flow after_hour ≡ flow (writer false) ++ accepted rough_hour (writer false))
write_run_in_order_example =
    write_run_in_order rough_hour (writer false) after_hour rough_hour-run (inr refl)
