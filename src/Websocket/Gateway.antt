-- ===== src/Websocket/Gateway.antt =====
-- pkg/websocket/gateway.go. Connections are shared by reference: `conns`, `rooms` and
-- `player_conns` hold positions in `heap`. A registry is read and written by one goroutine at a
-- time here, so the retry of `addToRoom` after a lost race does not occur.
pub mod Delivery
pub mod Registry
pub mod Calls
pub mod Histories
pub mod Reconnect
use online_game.Prelude.{
  ℕ, zero, suc, ◌+◌, ◌*◌, ◌/◌, String, Bool, true, false, Option, none, some, List, [], ◌∷◌, ◌++◌,
  length, get_elem?, modify, ltb, nat_beq, if◌then◌else◌,
}
use online_game.Prelude.Dict.{Dict, lookup, insert, delete, values}
use online_game.Prelude.Equality.{◌==◌, string_eq}
use online_game.Prelude.Int.{ℤ, pos, negsuc, ◌+ℤ◌}
use online_game.Prelude.Value.{Value, str, object}

-- The type is a text; the code names some.
pub record WsMessage : Type 0 where
  pub kind : String
  pub payload : Value
  pub seq : ℕ
  pub ts : ℕ

-- `send` is the buffered channel; `is_open` is whether the socket has not been closed.
pub record Conn (B : Type 0) : Type 0 where
  pub id : String
  pub player_id : String
  pub room_id : String
  pub is_open : Bool
  pub send : List B
  pub send_cap : ℕ
  pub closed : Bool

pub record Gateway (B : Type 0) : Type 0 where
  pub heap : List (Conn B)
  pub conns : Dict String ℕ
  pub rooms : Dict String (Dict String ℕ)
  pub player_conns : Dict String ℕ
  pub write_wait : ℕ
  pub pong_wait : ℕ
  pub ping_period : ℕ
  pub max_msg_size : ℕ
  pub send_buf : ℕ
  pub conn_count : ℤ
  pub msg_count : ℕ

-- Durations are nanoseconds.
pub record GatewayConfig : Type 0 where
  pub write_wait : ℕ
  pub pong_wait : ℕ
  pub max_msg_size : ℕ
  pub send_buf : ℤ

abbrev pub default_gateway_config : GatewayConfig
default_gateway_config = record {
  write_wait = 10000000000;
  pong_wait = 60000000000;
  max_msg_size = 4096;
  send_buf = pos 256;
}

-- `if cfg.SendBuf <= 0 { cfg.SendBuf = 256 }`
abbrev buffer_of : ℤ → ℕ
buffer_of (pos zero) = 256
buffer_of (pos (suc n)) = suc n
buffer_of (negsuc n) = 256

-- A call that returns, or panics after some of its writes.
pub data Outcome (S : Type 0) : Type 0 where
  done : S → Outcome S
  panics : S → Outcome S

abbrev pub after : {S : Type 0} → Outcome S → S
after (done s) = s
after (panics s) = s

-- The message that carries an event; `now` is in milliseconds.
abbrev pub event_message : String → Value → ℕ → WsMessage
event_message event payload now = record { kind = event; payload = payload; seq = 0; ts = now }

-- The loop of `SendExcept`: the references of all players but one.
unfoldable pub others : String → Dict String ℕ → List ℕ
others except [] = []
others except ((pid, ref) ∷ room) =
    let rest = others except room in if pid == except then rest else ref ∷ rest

module _ {B : Type 0} where
  unfoldable pub new_gateway : GatewayConfig → Gateway B
  new_gateway cfg = record {
    heap = [];
    conns = [];
    rooms = [];
    player_conns = [];
    write_wait = cfg.write_wait;
    pong_wait = cfg.pong_wait;
    ping_period = cfg.pong_wait * 9 / 10;
    max_msg_size = cfg.max_msg_size;
    send_buf = buffer_of cfg.send_buf;
    conn_count = pos 0;
    msg_count = 0;
  }

  -- `NewConn`: a new object on the heap. Its reference is the old size of the heap.
  unfoldable pub new_conn : String → String → String → Gateway B → Gateway B
  new_conn id player_id room_id g =
      let conn : Conn B = record {
        id = id;
        player_id = player_id;
        room_id = room_id;
        is_open = true;
        send = [];
        send_cap = g.send_buf;
        closed = false;
      } in
      record g { heap = g.heap ++ conn ∷ [] }

  -- The map of a room is changed in place.
  unfoldable pub add_to_room : String → String → ℕ → Gateway B → Gateway B
  add_to_room room_id player_id ref g = elim (lookup room_id g.rooms) [
    | none ↦ record g { rooms = insert room_id ((player_id, ref) ∷ []) g.rooms }
    | some room ↦ record g { rooms = insert room_id (insert player_id ref room) g.rooms }
  ]

  unfoldable pub join_room : Conn B → ℕ → Gateway B → Gateway B
  join_room conn ref g =
      if conn.room_id == "" then g else add_to_room conn.room_id conn.player_id ref g

  -- A reference to nothing does not occur; it changes nothing.
  unfoldable pub register : ℕ → Gateway B → Gateway B
  unfolding ◌+ℤ◌
  register ref g = elim (get_elem? g.heap ref) [
    | none ↦ g
    | some conn ↦ join_room conn ref (record g {
      conns = insert conn.id ref g.conns;
      player_conns = insert conn.player_id ref g.player_conns;
      conn_count = g.conn_count +ℤ pos 1;
    })
  ]

  -- `CompareAndDelete` compares the stored value with `==`, and a comparison of two maps panics, as
  -- the documentation of `sync.Map` warns: "The old value must be of a comparable type."
  unfoldable pub remove_from_room : String → String → Gateway B → Outcome (Gateway B)
  remove_from_room room_id player_id g = elim (lookup room_id g.rooms) [
    | none ↦ done g
    | some room ↦
        let rest = delete player_id room in
        let emptied = record g { rooms = insert room_id rest g.rooms } in
        if nat_beq (length rest) 0 then panics emptied else done emptied
  ]

  unfoldable pub leave_room : Conn B → Gateway B → Outcome (Gateway B)
  leave_room conn g =
      if conn.room_id == "" then done g else remove_from_room conn.room_id conn.player_id g

  -- `closed.CompareAndSwap(false, true)`, and then `ws.Close()`.
  abbrev pub close_conn : Conn B → Conn B
  close_conn conn = if conn.closed then conn else record conn { closed = true; is_open = false }

  unfoldable pub unregister_conn : String → ℕ → Option (Conn B) → Gateway B → Outcome (Gateway B)
  unfolding ◌+ℤ◌
  unregister_conn conn_id ref none g = done (record g { conns = delete conn_id g.conns })
  unregister_conn conn_id ref (some conn) g = leave_room conn (record g {
    conns = delete conn_id g.conns;
    heap = modify g.heap ref close_conn;
    player_conns = delete conn.player_id g.player_conns;
    conn_count = g.conn_count +ℤ negsuc 0;
  })

  unfoldable pub unregister : String → Gateway B → Outcome (Gateway B)
  unregister conn_id g = elim (lookup conn_id g.conns) [
    | none ↦ done g
    | some ref ↦ unregister_conn conn_id ref (get_elem? g.heap ref) g
  ]

  -- The non-blocking send: a message for a closed connection or a full buffer is dropped.
  unfoldable pub send_json : B → Conn B → Conn B
  send_json payload conn =
      if conn.closed
      then conn
      else if ltb (length conn.send) conn.send_cap
      then record conn { send = conn.send ++ payload ∷ [] }
      else conn

  unfoldable pub send_all : B → List ℕ → List (Conn B) → List (Conn B)
  unfolding send_json
  send_all payload [] heap = heap
  send_all payload (ref ∷ refs) heap = send_all payload refs (modify heap ref (send_json payload))

  unfoldable pub get_conn : String → Gateway B → Option ℕ
  get_conn conn_id g = lookup conn_id g.conns

  unfoldable pub stats : Gateway B → ℤ × ℕ
  stats g = (g.conn_count, g.msg_count)

  -- `json.Marshal` of a message: the bytes, or the empty payload where it fails.
  module _ (marshal : WsMessage → B) where
    unfoldable pub broadcast_to_room : ℕ → String → String → Value → Gateway B → Gateway B
    unfolding send_all
    broadcast_to_room now room_id event payload g = elim (lookup room_id g.rooms) [
      | none ↦ g
      | some room ↦ record g {
        heap = send_all (marshal (event_message event payload now)) (values room) g.heap;
        msg_count = g.msg_count + 1;
      }
    ]

    unfoldable pub send_to : ℕ → String → String → Value → Gateway B → Gateway B
    unfolding send_json
    send_to now player_id event payload g = elim (lookup player_id g.player_conns) [
      | none ↦ g
      | some ref ↦ record g {
        heap = modify g.heap ref (send_json (marshal (event_message event payload now)));
        msg_count = g.msg_count + 1;
      }
    ]

    unfoldable pub send_except : ℕ → String → String → String → Value → Gateway B → Gateway B
    unfolding send_all others
    send_except now room_id except event payload g = elim (lookup room_id g.rooms) [
      | none ↦ g
      | some room ↦ record g {
        heap = send_all (marshal (event_message event payload now)) (others except room) g.heap;
        msg_count = g.msg_count + 1;
      }
    ]

    -- The registry's part of `ServeWS` after the upgrade: `conn_id` is the new UUID. The welcome
    -- message goes to the connection alone and is not counted.
    unfoldable pub serve_ws : ℕ → String → String → String → Gateway B → Gateway B
    unfolding new_conn register send_json
    serve_ws now conn_id player_id room_id g =
        let ref = length g.heap in
        let registered = register ref (new_conn conn_id player_id room_id g) in
        let welcome =
          event_message "connected"
            (object (("playerId", str player_id) ∷ ("roomId", str room_id) ∷ [])) now in
        record registered { heap = modify registered.heap ref (send_json (marshal welcome)) }
