-- ===== src/Websocket/Gateway/Calls.antt =====
-- Every call of the gateway keeps its registries in order.
use online_game.Prelude.{
  ℕ, String, ◌≡◌, refl, false, none, some, List, [], ◌∷◌, arith, length, get_elem?, modify, nat_beq,
  Bool-cases, Option-cases, inl, inr,
}
use online_game.Prelude.Dict.{
  Dict, lookup, insert, delete, UniqueKeys, UniqueKeys-insert, UniqueKeys-delete, length-insert,
  length-delete, lookup-insert,
}
use online_game.Prelude.Equality.{◌==◌, string_eq}
use online_game.Websocket.Gateway.{
  Conn, Gateway, GatewayConfig, after, new_gateway, add_to_room, join_room, register,
  remove_from_room, leave_room, close_conn, unregister_conn, unregister,
}
use online_game.Websocket.Gateway.Delivery.{Members}
use online_game.Websocket.Gateway.Registry.{
  IsValid, SameIds, Rooms-SameIds, Filed-SameIds, modify-SameIds, Rooms-insert, Rooms-lookup,
  Members-insert, Members-delete, Filed-insert, Filed-delete, Filed-lookup, KeepsIds,
}

module _ {B : Type 0} where
  pub new_gateway-IsValid : (cfg : GatewayConfig) → IsValid (new_gateway {B = B} cfg)
  unfolding new_gateway lookup
  new_gateway-IsValid cfg = record {
    unique_conns = tt;
    unique_rooms = tt;
    rooms = tt;
    filed = tt;
    nameless = refl;
    counted = refl;
  }

  -- A change of connections in place.
  pub IsValid-heap :
      (g : Gateway B) (heap : List (Conn B)) (n : ℕ)
      → SameIds g.heap heap
      → IsValid g
      → IsValid (record g { heap = heap; msg_count = n })
  IsValid-heap g heap n same v = record {
    unique_conns = v.unique_conns;
    unique_rooms = v.unique_rooms;
    rooms = Rooms-SameIds g.heap heap same g.rooms v.rooms;
    filed = Filed-SameIds g.heap heap same g.conns v.filed;
    nameless = v.nameless;
    counted = v.counted;
  }

  IsValid-room :
      (g : Gateway B) (r : String) (m : Dict String ℕ)
      → (r == "") ≡ false
      → UniqueKeys m
      → Members g.heap r m
      → IsValid g
      → IsValid (record g { rooms = insert r m g.rooms })
  IsValid-room g r m named u h v = record {
    unique_conns = v.unique_conns;
    unique_rooms = UniqueKeys-insert r m g.rooms v.unique_rooms;
    rooms = Rooms-insert g.heap r m g.rooms u h v.rooms;
    filed = v.filed;
    nameless = rw (lookup-insert, named) v.nameless;
    counted = v.counted;
  }

  add_to_room-IsValid :
      (c : Conn B) (ref : ℕ) (g : Gateway B)
      → get_elem? g.heap ref ≡ some c
      → (c.room_id == "") ≡ false
      → IsValid g
      → IsValid (add_to_room c.room_id c.player_id ref g)
  unfolding add_to_room lookup
  add_to_room-IsValid c ref g at named v = elim (Option-cases (lookup c.room_id g.rooms)) [
    | inl new ↦
        rw (new, add_to_room)
          (IsValid-room g c.room_id ((c.player_id, ref) ∷ []) named (refl, tt)
            ((c, at, refl, refl), tt) v)
    | inr (m, old) ↦
        let (u, h) = Rooms-lookup g.heap c.room_id m g.rooms old v.rooms in
        rw (old, add_to_room)
          (IsValid-room g c.room_id (insert c.player_id ref m) named
            (UniqueKeys-insert c.player_id ref m u)
            (Members-insert g.heap c.room_id ref c m at refl h) v)
  ]

  join_room-IsValid :
      (c : Conn B) (ref : ℕ) (g : Gateway B)
      → get_elem? g.heap ref ≡ some c
      → IsValid g
      → IsValid (join_room c ref g)
  unfolding join_room
  join_room-IsValid c ref g at v = elim (Bool-cases (c.room_id == "")) [
    | inl nameless ↦ rw (nameless, join_room) v
    | inr named ↦ rw (named, join_room) (add_to_room-IsValid c ref g at named v)
  ]

  -- A connection whose id is new may be registered.
  pub register-IsValid :
      (c : Conn B) (ref : ℕ) (g : Gateway B)
      → get_elem? g.heap ref ≡ some c
      → lookup c.id g.conns ≡ none
      → IsValid g
      → IsValid (register ref g)
  unfolding register
  register-IsValid c ref g at fresh v =
      rw (at, register)
        (join_room-IsValid c ref _ at (record {
          unique_conns = UniqueKeys-insert c.id ref g.conns v.unique_conns;
          unique_rooms = v.unique_rooms;
          rooms = v.rooms;
          filed = Filed-insert g.heap ref c g.conns at v.filed;
          nameless = v.nameless;
          counted = ground (arith, fresh, length-insert c.id ref g.conns);
        }))

  remove_from_room-IsValid :
      (r pid : String) (g : Gateway B)
      → (r == "") ≡ false
      → IsValid g
      → IsValid (after (remove_from_room r pid g))
  unfolding remove_from_room
  remove_from_room-IsValid r pid g named v = elim (Option-cases (lookup r g.rooms)) [
    | inl new ↦ rw (new, remove_from_room) v
    | inr (m, old) ↦
        let (u, h) = Rooms-lookup g.heap r m g.rooms old v.rooms in
        let left =
          IsValid-room g r (delete pid m) named (UniqueKeys-delete pid m u)
            (Members-delete g.heap r pid m h) v in
        elim (Bool-cases (nat_beq (length (delete pid m)) 0)) [
          | inl last ↦ rw (old, remove_from_room, last) left
          | inr more ↦ rw (old, remove_from_room, more) left
        ]
  ]

  leave_room-IsValid : (c : Conn B) (g : Gateway B) → IsValid g → IsValid (after (leave_room c g))
  unfolding leave_room
  leave_room-IsValid c g v = elim (Bool-cases (c.room_id == "")) [
    | inl nameless ↦ rw (nameless, leave_room) v
    | inr named ↦ rw (named, leave_room) (remove_from_room-IsValid c.room_id c.player_id g named v)
  ]

  close_conn-KeepsIds : KeepsIds {B = B} close_conn
  close_conn-KeepsIds c = ground arith

  -- `Unregister` leaves the registries in order, also where it panics.
  pub unregister-IsValid :
      (id : String) (g : Gateway B) → IsValid g → IsValid (after (unregister id g))
  unfolding unregister unregister_conn
  unregister-IsValid id g v = elim (Option-cases (lookup id g.conns)) [
    | inl missing ↦ rw (missing, unregister) v
    | inr (ref, found) ↦
        let (c, at, named) = Filed-lookup g.heap id ref g.conns found v.filed in
        let same = modify-SameIds g.heap ref close_conn close_conn-KeepsIds in
        let heap = modify g.heap ref close_conn in
        rw (found, unregister, at, unregister_conn)
          (leave_room-IsValid c _ (record {
            unique_conns = UniqueKeys-delete id g.conns v.unique_conns;
            unique_rooms = v.unique_rooms;
            rooms = Rooms-SameIds g.heap heap same g.rooms v.rooms;
            filed = Filed-delete heap id g.conns (Filed-SameIds g.heap heap same g.conns v.filed);
            nameless = v.nameless;
            counted = ground (arith, found, v.counted, length-delete id g.conns v.unique_conns);
          }))
  ]
