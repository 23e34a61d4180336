-- ===== src/Websocket/Gateway/Histories.antt =====
-- The gateway over a history of calls.
use online_game.Prelude.{
  ℕ, ◌+◌, String, ◌≡◌, refl, true, false, none, List, [], ◌∷◌, ◌++◌, length, get_elem?-append_left,
  get_elem?-append_length, Option-cases, inl, inr,
}
use online_game.Prelude.Dict.{lookup, values}
use online_game.Prelude.Equality.{string_eq}
use online_game.Prelude.Value.{Value}
use online_game.Websocket.Gateway.{
  WsMessage, Conn, Gateway, GatewayConfig, after, new_gateway, new_conn, register, unregister,
  others, broadcast_to_room, send_to, send_except, serve_ws,
}
use online_game.Websocket.Gateway.Registry.{
  IsValid, SameIds, modify-SameIds, send_json-KeepsIds, send_all-SameIds,
}
use online_game.Websocket.Gateway.Calls.{
  new_gateway-IsValid, IsValid-heap, register-IsValid, unregister-IsValid,
}

-- The calls that change a gateway. Each has its time where it stamps a message.
pub data Call : Type 0 where
  serves : ℕ → String → String → String → Call
  unregisters : String → Call
  broadcasts : ℕ → String → String → Value → Call
  sends_to : ℕ → String → String → Value → Call
  sends_except : ℕ → String → String → String → Value → Call

module _ {B : Type 0} (marshal : WsMessage → B) where
  -- A call that panics leaves the gateway as it is then.
  unfoldable pub call : Call → Gateway B → Gateway B
  call (serves now id player room) g = serve_ws marshal now id player room g
  call (unregisters id) g = after (unregister id g)
  call (broadcasts now room event payload) g = broadcast_to_room marshal now room event payload g
  call (sends_to now player event payload) g = send_to marshal now player event payload g
  call (sends_except now room except event payload) g =
      send_except marshal now room except event payload g

  unfoldable pub calls : List Call → Gateway B → Gateway B
  calls [] g = g
  calls (c ∷ cs) g = calls cs (call c g)

  -- The UUID of a new connection is not in use.
  abbrev pub Fresh : Call → Gateway B → Type 0
  Fresh (serves now id player room) g = lookup id g.conns ≡ none
  Fresh c g = Unit {0}

  abbrev pub FreshAll : List Call → Gateway B → Type 0
  FreshAll [] g = Unit {0}
  FreshAll (c ∷ cs) g = Fresh c g × FreshAll cs (call c g)

  append-SameIds : (heap : List (Conn B)) (c : Conn B) → SameIds heap (heap ++ c ∷ [])
  append-SameIds heap c i d e = (d, get_elem?-append_left heap (c ∷ []) i e, refl, refl, refl)

  serve_ws-IsValid :
      (now : ℕ) (id player room : String) (g : Gateway B)
      → lookup id g.conns ≡ none
      → IsValid g
      → IsValid (serve_ws marshal now id player room g)
  unfolding serve_ws new_conn
  serve_ws-IsValid now id player room g fresh v =
      let c : Conn B = record {
        id = id;
        player_id = player;
        room_id = room;
        is_open = true;
        send = [];
        send_cap = g.send_buf;
        closed = false;
      } in
      let added = record g { heap = g.heap ++ c ∷ [] } in
      let r = register (length g.heap) added in
      let w = IsValid-heap g (g.heap ++ c ∷ []) g.msg_count (append-SameIds g.heap c) v in
      let registered =
        register-IsValid c (length g.heap) added (get_elem?-append_length g.heap c) fresh w in
      IsValid-heap r _ r.msg_count (modify-SameIds r.heap (length g.heap) _ (send_json-KeepsIds _))
        registered

  -- Every call keeps the registries in order, if the UUID of a new connection is not in use.
  pub call-IsValid : (c : Call) (g : Gateway B) → Fresh c g → IsValid g → IsValid (call c g)
  unfolding call broadcast_to_room send_to send_except
  call-IsValid (serves now id player room) g fresh v = serve_ws-IsValid now id player room g fresh v
  call-IsValid (unregisters id) g fresh v = unregister-IsValid id g v
  call-IsValid (broadcasts now room event payload) g fresh v =
      elim (Option-cases (lookup room g.rooms)) [
        | inl e ↦ rw (e, broadcast_to_room) v
        | inr (m, e) ↦
            rw (e, broadcast_to_room)
              (IsValid-heap g _ (g.msg_count + 1) (send_all-SameIds _ (values m) g.heap) v)
      ]
  call-IsValid (sends_to now player event payload) g fresh v =
      elim (Option-cases (lookup player g.player_conns)) [
        | inl e ↦ rw (e, send_to) v
        | inr (ref, e) ↦
            rw (e, send_to)
              (IsValid-heap g _ (g.msg_count + 1)
                (modify-SameIds g.heap ref _ (send_json-KeepsIds _)) v)
      ]
  call-IsValid (sends_except now room except event payload) g fresh v =
      elim (Option-cases (lookup room g.rooms)) [
        | inl e ↦ rw (e, send_except) v
        | inr (m, e) ↦
            rw (e, send_except)
              (IsValid-heap g _ (g.msg_count + 1) (send_all-SameIds _ (others except m) g.heap) v)
      ]

  calls-IsValid :
      (cs : List Call) (g : Gateway B) → FreshAll cs g → IsValid g → IsValid (calls cs g)
  unfolding calls
  calls-IsValid [] g f v = v
  calls-IsValid (c ∷ cs) g (f, fs) v = calls-IsValid cs (call c g) fs (call-IsValid c g f v)

  -- After any history of a new gateway: `Count` is the number of registered connections, each room's
  -- entries are connections of that room under their player's id, and no room has an empty name.
  gateway_history-IsValid :
      (cfg : GatewayConfig) (cs : List Call)
      → FreshAll cs (new_gateway cfg)
      → IsValid (calls cs (new_gateway cfg))
  gateway_history-IsValid cfg cs f = calls-IsValid cs _ f (new_gateway-IsValid cfg)
