-- ===== src/Websocket/Gateway/Reconnect.antt =====
-- What goes wrong when a player reconnects, and when the last player of a room leaves.
use online_game.Prelude.{
  ℕ, String, ◌≡◌, ◌≢◌, false, none, some, List, arith, length, get_elem?, modify, nat_beq,
  if◌then◌else◌,
}
use online_game.Prelude.Dict.{lookup, insert, delete, lookup-insert, lookup-delete}
use online_game.Prelude.Equality.{◌==◌, string_eq, beq_refl}
use online_game.Prelude.Int.{negsuc, ◌+ℤ◌}
use online_game.Prelude.Value.{Value}
use online_game.Websocket.Gateway.{
  WsMessage, Conn, Gateway, done, panics, after, join_room, add_to_room, register, remove_from_room,
  leave_room, close_conn, unregister_conn, unregister, send_to,
}

module _ {B : Type 0} where
  remove_from_room-player_conns :
      (r pid : String) (g : Gateway B)
      → (after (remove_from_room r pid g)).player_conns ≡ g.player_conns
  unfolding remove_from_room
  remove_from_room-player_conns r pid g = ground arith

  leave_room-player_conns :
      (c : Conn B) (g : Gateway B) → (after (leave_room c g)).player_conns ≡ g.player_conns
  unfolding leave_room
  leave_room-player_conns c g =
      ground (arith, remove_from_room-player_conns c.room_id c.player_id g)

  -- When a connection is unregistered its player has no connection any more, also where the player
  -- had reconnected and the index held the new connection: what is sent to the player is lost.
  unregister_forgets_player :
      (id j : String) (ref : ℕ) (c : Conn B) (g : Gateway B)
      → lookup id g.conns ≡ some ref
      → get_elem? g.heap ref ≡ some c
      → lookup j (after (unregister id g)).player_conns
        ≡ (if c.player_id == j then none else lookup j g.player_conns)
  unfolding unregister unregister_conn
  unregister_forgets_player id j ref c g found at =
      rw (found, unregister, at, unregister_conn, leave_room-player_conns)
        (lookup-delete c.player_id j g.player_conns)

  -- `SendTo` does nothing at all for a player without a connection.
  send_to_nobody :
      (marshal : WsMessage → B) (now : ℕ) (player event : String) (payload : Value) (g : Gateway B)
      → lookup player g.player_conns ≡ none
      → send_to marshal now player event payload g ≡ g
  unfolding send_to
  send_to_nobody marshal now player event payload g h = rw (h, send_to)

  join_room-parts :
      (c : Conn B) (ref : ℕ) (g : Gateway B)
      → ((join_room c ref g).heap ≡ g.heap)
        × ((join_room c ref g).conns ≡ g.conns)
        × ((join_room c ref g).player_conns ≡ g.player_conns)
  unfolding join_room add_to_room
  join_room-parts c ref g = ground arith

  register-parts :
      (c : Conn B) (ref : ℕ) (g : Gateway B)
      → get_elem? g.heap ref ≡ some c
      → ((register ref g).heap ≡ g.heap)
        × ((register ref g).conns ≡ insert c.id ref g.conns)
        × ((register ref g).player_conns ≡ insert c.player_id ref g.player_conns)
  unfolding register
  register-parts c ref g at = rw (at, register) (join_room-parts c ref _)

  -- A player who opens a second connection and whose first then ends is out of reach, though the
  -- second is open: `SendTo` delivers nothing.
  pub reconnect_unreachable :
      (marshal : WsMessage → B) (now : ℕ) (event : String) (payload : Value) (old new : Conn B)
      (ref ref' : ℕ) (g : Gateway B)
      → old.player_id ≡ new.player_id
      → old.id ≢ new.id
      → lookup old.id g.conns ≡ some ref
      → get_elem? g.heap ref ≡ some old
      → get_elem? g.heap ref' ≡ some new
      → let reconnected = register ref' g in
        let left = after (unregister old.id reconnected) in
        (lookup new.player_id reconnected.player_conns ≡ some ref')
        × (send_to marshal now new.player_id event payload left ≡ left)
  reconnect_unreachable marshal now event payload old new ref ref' g p q found at at' =
      let reconnected = register ref' g in
      let (heap, conns, players) = register-parts new ref' g at' in
      let kept : lookup old.id reconnected.conns ≡ some ref =
        rw (conns, lookup-insert) (ground (arith, found, string_eq.decides new.id old.id)) in
      let found' : get_elem? reconnected.heap ref ≡ some old = rw heap at in
      let gone : lookup new.player_id (after (unregister old.id reconnected)).player_conns ≡ none =
        rw (unregister_forgets_player old.id new.player_id ref old reconnected kept found', p)
          (rw (beq_refl new.player_id)) in
      (
        rw (players, lookup-insert) (rw (beq_refl new.player_id)),
        send_to_nobody marshal now new.player_id event payload _ gone,
      )

  -- `Unregister` of a connection in a room panics exactly when the player was the last in the room;
  -- the empty room then stays in the registry.
  pub unregister_last :
      (id : String) (ref : ℕ) (c : Conn B) (m : List (String × ℕ)) (g : Gateway B)
      → lookup id g.conns ≡ some ref
      → get_elem? g.heap ref ≡ some c
      → c.room_id ≢ ""
      → lookup c.room_id g.rooms ≡ some m
      → let rest = delete c.player_id m in
        (s : Gateway B) × (unregister id g ≡ (if nat_beq (length rest) 0 then panics s else done s))
        × (lookup c.room_id s.rooms ≡ some rest)
  unfolding unregister unregister_conn leave_room remove_from_room
  unregister_last id ref c m g found at named room =
      let some_room : (c.room_id == "") ≡ false = ground (arith, string_eq.decides c.room_id "") in
      let g' = record g {
        conns = delete id g.conns;
        heap = modify g.heap ref close_conn;
        player_conns = delete c.player_id g.player_conns;
        conn_count = g.conn_count +ℤ negsuc 0;
        rooms = insert c.room_id (delete c.player_id m) g.rooms;
      } in
      (
        g',
        rw (found, unregister, at, unregister_conn, some_room, leave_room, room, remove_from_room),
        rw lookup-insert (rw (beq_refl c.room_id)),
      )
