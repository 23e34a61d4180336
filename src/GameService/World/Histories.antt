-- ===== src/GameService/World/Histories.antt =====
-- The game service is in order over every history of calls, connections and moves.
use online_game.Prelude.{ℕ, String, inl, inr, Bool-cases, Option, List}
use online_game.Prelude.Dict.{has_key}
use online_game.Prelude.Equality.{string_eq}
use online_game.Prelude.Int.{ℤ}
use online_game.Actor.System.{ActorSystem, new_actor_system}
use online_game.Actor.Game.{GameActorConfig}
use online_game.Actor.Game.Play.{new_game_actor}
use online_game.Engine.{GojaEngine}
use online_game.Websocket.Gateway.{WsMessage, after, GatewayConfig, new_gateway}
use online_game.GameService.{Game, Libraries, RoomActor, Service}
use online_game.GameService.Rooms.{mailbox, create_game_actor}
use online_game.GameService.World.Rooms.{Every, Every-insert, RoomOk, new_room-RoomOk}
use online_game.GameService.World.Moves.{
  IsValid, mailbox-KeepsId, tell_actor-IsValid, gateway-IsValid, stores-IsValid, move-IsValid,
}
use online_game.Websocket.Gateway.Calls.{new_gateway-IsValid}
use online_game.GameService.World.{Step, world_run}
use online_game.Actor.Mailbox.{Event}
use online_game.Actor.Mailbox as Mailbox
use online_game.Actor.System as System
use online_game.Actor.System.Laws as SystemLaws
use online_game.GameService.World.Calls.{Kept, FreshAll, steps-Kept}

module _ {V : Type 0} where
  register-rooms :
      (cfg : GameActorConfig (GojaEngine V)) (now : ℕ) (s : ActorSystem (RoomActor V))
      → Every RoomOk s.actors
      → Every RoomOk (System.register mailbox (new_game_actor cfg now) s).0.actors
  unfolding System.register mailbox
  register-rooms cfg now s v =
      let a = new_game_actor cfg now in
      elim (Bool-cases (has_key a.id s.actors)) [
        | inl taken ↦ rw (taken, System.register) v
        | inr new ↦
            rw (new, System.register)
              (Every-insert RoomOk a.id (Mailbox.start a) s.actors (new_room-RoomOk cfg now) v)
      ]

module _ {D C V B : Type 0} where
  -- The service when it begins: no room, and a new gateway.
  unfoldable pub new_world : D → Option C → GatewayConfig → Service D C V B
  unfolding new_actor_system new_gateway mailbox
  new_world db cache cfg = record {
    db = db;
    actor_system = new_actor_system mailbox;
    ws_gateway = new_gateway cfg;
    cache = cache;
  }

  new_world-IsValid :
      (db : D) (cache : Option C) (cfg : GatewayConfig) → IsValid (new_world db cache cfg)
  unfolding new_world
  new_world-IsValid db cache cfg = record {
    registry = SystemLaws.new_actor_system-IsValid mailbox;
    rooms = tt;
    gateway = new_gateway-IsValid cfg;
  }

module _ {D C V B : Type 0} (libs : Libraries D C V) (marshal : WsMessage → B)
    (text : ℤ → String) where
  create_game_actor-IsValid :
      (now : ℕ) (game : Game) (room_id : String) (max : ℤ) (s : Service D C V B)
      → IsValid s
      → IsValid (create_game_actor libs now game room_id max s).0
  unfolding create_game_actor
  create_game_actor-IsValid now game room_id max s v = record {
    registry = SystemLaws.register-IsValid mailbox mailbox-KeepsId _ s.actor_system v.registry;
    rooms = register-rooms _ now s.actor_system v.rooms;
    gateway = v.gateway;
  }

  IsValid-Kept : Kept libs marshal text IsValid
  IsValid-Kept = record {
    told = tell_actor-IsValid libs marshal text;
    stored = stores-IsValid libs marshal text;
    registered = create_game_actor-IsValid;
    reached = gateway-IsValid libs marshal text;
    moved = move-IsValid libs marshal text;
  }

  -- From a new service, after any calls, messages of connections, ends of connections and moves of the
  -- rooms' goroutines in any order, up to a panic of `Unregister` that ends the process and also
  -- there, if the UUID of each new connection is not in use: the registry
  -- counts its rooms and files each once, under the id made of its own game and room; every room's
  -- inbox is within its capacity and its running flag true to its goroutine, no room seats more
  -- players than it may or anybody twice, and a room with players is owned by one of them; and the
  -- gateway's registries are in order.
  pub world_run-IsValid :
      (db : D) (cache : Option C) (cfg : GatewayConfig) (es : List (Step V))
      → FreshAll libs marshal text es (new_world db cache cfg)
      → IsValid (after (world_run libs marshal text es (new_world db cache cfg)))
  world_run-IsValid db cache cfg es f =
      steps-Kept libs marshal text IsValid IsValid-Kept es _ f (new_world-IsValid db cache cfg)
