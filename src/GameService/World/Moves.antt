-- ===== src/GameService/World/Moves.antt =====
-- What messages, effects and the moves of the goroutines keep of the service.
use online_game.Prelude.{
  ℕ, String, ◌≡◌, Option, some, List, [], ◌∷◌, arith, Option-cases, inl, inr, length,
}
use online_game.Prelude.Dict.{lookup, insert}
use online_game.Prelude.Equality.{string_eq}
use online_game.Prelude.Int.{ℤ}
use online_game.Actor.Message.{Message}
use online_game.Actor.Mailbox as Mailbox
use online_game.Actor.Mailbox.{Event, sends, step, starts}
use online_game.Actor.System as System
use online_game.Actor.System.Laws as SystemLaws
use online_game.Actor.Game.{Effect}
use online_game.Engine.Goja.{engine_interface}
use online_game.Websocket.Gateway.{WsMessage}
use online_game.Websocket.Gateway.Registry as Registry
use online_game.Websocket.Gateway.Histories as GatewayHistories
use online_game.GameService.{Libraries, RoomActor, Service}
use online_game.GameService.Rooms.{mailbox, tell_actor}
use online_game.GameService.Sockets.{apply_effect, apply_effects, room_adapter}
use online_game.GameService.World.{Runner, moved, move, room_handler, after_first}
use online_game.GameService.World.Rooms.{
  Every, Every-insert, Every-lookup, RoomOk, step-id, step-RoomOk, send-RoomOk,
}

-- The service between two steps: the registry of rooms keeps its count and files each room once,
-- under its own id; each room is in order; and so is the gateway.
pub record IsValid {D C V B : Type 0} (s : Service D C V B) : Type 0 where
  pub registry : SystemLaws.IsValid (mailbox {V = V}) s.actor_system
  pub rooms : Every RoomOk s.actor_system.actors
  pub gateway : Registry.IsValid s.ws_gateway

module _ {V : Type 0} where
  pub mailbox-KeepsId : SystemLaws.KeepsId (mailbox {V = V})
  unfolding mailbox Mailbox.start Mailbox.send
  mailbox-KeepsId = record { start = λ a. ground arith; send = λ m a. ground arith }

module _ {D C V B : Type 0} (libs : Libraries D C V) (marshal : WsMessage → B)
    (text : ℤ → String) where
  tell_actor-rooms :
      (id : String) (m : Message) (s : Service D C V B)
      → Every RoomOk s.actor_system.actors
      → Every RoomOk (tell_actor libs id m s).0.actor_system.actors
  unfolding tell_actor System.send_to System.get
  tell_actor-rooms id m s v = elim (Option-cases (lookup id s.actor_system.actors)) [
    | inl missing ↦ rw (missing, tell_actor, System.send_to, System.get) v
    | inr (a, found) ↦
        let kept = send-RoomOk m a (Every-lookup RoomOk id a s.actor_system.actors found v) in
        let after = Every-insert RoomOk id (Mailbox.send m a).0 s.actor_system.actors kept v in
        ground (arith, found, after)
  ]

  pub tell_actor-IsValid :
      (id : String) (m : Message) (s : Service D C V B)
      → IsValid s
      → IsValid (tell_actor libs id m s).0
  unfolding tell_actor
  tell_actor-IsValid id m s v = record {
    registry = SystemLaws.send_to-IsValid mailbox mailbox-KeepsId id m s.actor_system v.registry;
    rooms = tell_actor-rooms id m s v.rooms;
    gateway = v.gateway;
  }

  pub gateway-IsValid :
      (c : GatewayHistories.Call) (s : Service D C V B)
      → GatewayHistories.Fresh marshal c s.ws_gateway
      → IsValid s
      → IsValid (record s { ws_gateway = GatewayHistories.call marshal c s.ws_gateway })
  gateway-IsValid c s fresh v = record {
    registry = v.registry;
    rooms = v.rooms;
    gateway = GatewayHistories.call-IsValid marshal c s.ws_gateway fresh v.gateway;
  }

  -- A change of the database or of the cache only.
  pub stores-IsValid :
      (db : D) (cache : Option C) (s : Service D C V B)
      → IsValid s
      → IsValid (record s { db = db; cache = cache })
  stores-IsValid db cache s v = record {
    registry = v.registry;
    rooms = v.rooms;
    gateway = v.gateway;
  }

  apply_effect-IsValid :
      (now now_ms : ℕ) (e : Effect) (s : Service D C V B)
      → IsValid s
      → IsValid (apply_effect libs marshal now now_ms e s)
  unfolding apply_effect GatewayHistories.call
  apply_effect-IsValid now now_ms (Effect.broadcast_to_room room event details) s v =
      gateway-IsValid (GatewayHistories.broadcasts now_ms room event details) s tt v
  apply_effect-IsValid now now_ms (Effect.send_to player event details) s v =
      gateway-IsValid (GatewayHistories.sends_to now_ms player event details) s tt v
  apply_effect-IsValid now now_ms (Effect.send_except room except event details) s v =
      gateway-IsValid (GatewayHistories.sends_except now_ms room except event details) s tt v
  apply_effect-IsValid now now_ms (Effect.update_room_status room status) s v =
      stores-IsValid _ s.cache s v
  apply_effect-IsValid now now_ms (Effect.record_game_results room results) s v =
      stores-IsValid _ s.cache s v

  apply_effects-IsValid :
      (now now_ms : ℕ) (es : List Effect) (s : Service D C V B)
      → IsValid s
      → IsValid (apply_effects libs marshal now now_ms es s)
  unfolding apply_effects
  apply_effects-IsValid now now_ms [] s v = v
  apply_effects-IsValid now now_ms (e ∷ es) s v =
      apply_effects-IsValid now now_ms es _ (apply_effect-IsValid now now_ms e s v)

  -- A room's actor after a move of its goroutine.
  replaced-IsValid :
      (r : Runner V) (id : String) (e : Event Message) (a b : RoomActor V) (s : Service D C V B)
      → lookup id s.actor_system.actors ≡ some a
      → step (room_handler libs text r s.db) e a ≡ some b
      → IsValid s
      → IsValid (record s {
        actor_system = record s.actor_system { actors = insert id b s.actor_system.actors };
      })
  unfolding room_handler mailbox
  replaced-IsValid r id e a b s found went v =
      let engine =
        engine_interface libs.runtime (room_adapter libs s.db) libs.number text r.elapsed r.order in
      let ok = Every-lookup RoomOk id a s.actor_system.actors found v.rooms in
      record {
        registry =
            SystemLaws.replace-IsValid mailbox id a b s.actor_system found
              (step-id engine r.env e a b went) v.registry;
        rooms =
            Every-insert RoomOk id b s.actor_system.actors (step-RoomOk engine r.env e a b went ok)
              v.rooms;
        gateway = v.gateway;
      }

  pub move-IsValid :
      (r : Runner V) (id : String) (e : Event Message) (s : Service D C V B)
      → IsValid s
      → IsValid (move libs marshal text r id e s)
  unfolding move System.get moved
  move-IsValid r id e s v = elim (Option-cases (lookup id s.actor_system.actors)) [
    | inl missing ↦ rw (missing, move, System.get) v
    | inr (a, found) ↦ elim (Option-cases (step (room_handler libs text r s.db) e a)) [
      | inl stuck ↦ rw (found, move, System.get, stuck, moved) v
      | inr (b, went) ↦
          rw (found, move, System.get, went, moved)
            (apply_effects-IsValid r.now r.now_ms
              (after_first (length a.state.effects) b.state.effects) _
              (replaced-IsValid r id e a b s found went v))
    ]
  ]
