-- ===== src/GameService/World/Lasting.antt =====
-- What lasts: no step of the game service takes a room's actor out of the registry.
use mathlib.Core.Path.{subst}
use online_game.Prelude.{
  ℕ, String, ◌≡◌, none, List, arith, Option-cases, inl, inr, Bool-cases, true,
}
use online_game.Prelude.Dict.{Dict, lookup, insert, has_key, lookup-insert}
use online_game.Prelude.Equality.{string_eq}
use online_game.Prelude.Int.{ℤ}
use online_game.Actor.Message.{Message}
use online_game.Actor.Mailbox.{Event, step, start}
use online_game.Actor.System as System
use online_game.Actor.System.{ActorSystem}
use online_game.Actor.Game.Play.{actor_id_of}
use online_game.GameService.Sockets.{handle_web_socket}
use online_game.Websocket.Gateway.{WsMessage, done, after}
use online_game.GameService.{Game, Libraries, RoomActor, Service}
use online_game.GameService.Rooms.{mailbox, tell_actor, create_game_actor}
use online_game.GameService.World.{Step, Runner, world_run, move, moved, room_handler}
use online_game.GameService.World.Calls.{Kept, FreshAll, steps-Kept}
use online_game.GameService.World.Arrivals.{apply_effects-actors}

has_key-insert :
    {A : Type 0} (id k : String) (a : A) (m : Dict String A)
    → has_key id m ≡ true
    → has_key id (insert k a m) ≡ true
has_key-insert id k a m there = ground (arith, there, lookup-insert k id a m)

register-has_key :
    {V : Type 0} (id : String) (a : RoomActor V) (s : ActorSystem (RoomActor V))
    → has_key id s.actors ≡ true
    → has_key id (System.register mailbox a s).0.actors ≡ true
unfolding System.register mailbox
register-has_key id a s there = elim (Bool-cases (has_key a.id s.actors)) [
  | inl taken ↦ rw (taken, System.register) there
  | inr new ↦ rw (new, System.register) (has_key-insert id a.id (start a) s.actors there)
]

module _ {D C V B : Type 0} (libs : Libraries D C V) (marshal : WsMessage → B) (text : ℤ → String)
    (id : String) where
  abbrev pub HasRoom : Service D C V B → Type 0
  HasRoom s = has_key id s.actor_system.actors ≡ true

  told-HasRoom :
      (k : String) (m : Message) (s : Service D C V B)
      → HasRoom s
      → HasRoom (tell_actor libs k m s).0
  unfolding tell_actor System.send_to System.get
  told-HasRoom k m s there = elim (Option-cases (lookup k s.actor_system.actors)) [
    | inl missing ↦ rw (missing, tell_actor, System.send_to, System.get) there
    | inr (a, found) ↦
        ground (arith, found, has_key-insert id k (mailbox.send m a).0 s.actor_system.actors there)
  ]

  registered-HasRoom :
      (now : ℕ) (game : Game) (room_id : String) (max : ℤ) (s : Service D C V B)
      → HasRoom s
      → HasRoom (create_game_actor libs now game room_id max s).0
  unfolding create_game_actor
  registered-HasRoom now game room_id max s there = register-has_key id _ s.actor_system there

  moved-HasRoom :
      (r : Runner V) (k : String) (e : Event Message) (s : Service D C V B)
      → HasRoom s
      → HasRoom (move libs marshal text r k e s)
  unfolding move System.get moved
  moved-HasRoom r k e s there = elim (Option-cases (lookup k s.actor_system.actors)) [
    | inl missing ↦ rw (missing, move, System.get) there
    | inr (a, found) ↦ elim (Option-cases (step (room_handler libs text r s.db) e a)) [
      | inl stuck ↦ rw (found, move, System.get, stuck, moved) there
      | inr (b, went) ↦
          rw (found, move, System.get, went, moved, apply_effects-actors)
            (has_key-insert id k b s.actor_system.actors there)
    ]
  ]

  HasRoom-Kept : Kept libs marshal text HasRoom
  HasRoom-Kept = record {
    told = told-HasRoom;
    stored = λ db cache s there. there;
    registered = registered-HasRoom;
    reached = λ c s fresh there. there;
    moved = moved-HasRoom;
  }

module _ {D C V B : Type 0} (libs : Libraries D C V) (marshal : WsMessage → B)
    (text : ℤ → String) where
  accepted :
      (now_ms : ℕ) (conn_id player game_id room_id : String) (s : Service D C V B)
      → HasRoom libs marshal text (actor_id_of game_id room_id) s
      → (handle_web_socket libs marshal now_ms conn_id player game_id room_id s).1 ≡ none
  unfolding handle_web_socket System.get
  accepted now_ms conn_id player game_id room_id s there = ground (arith, there)

  -- A room whose actor is in the registry is there after any history with fresh connections that the
  -- process survives, also one in which the room is closed and its players leave, and it goes on to
  -- accept connections: no step of the service takes a room's actor from the registry.
  pub room_lasts :
      (game_id room_id : String) (s : Service D C V B) (es : List (Step V)) (now_ms : ℕ)
      (conn_id player : String) (t : Service D C V B)
      → FreshAll libs marshal text es s
      → HasRoom libs marshal text (actor_id_of game_id room_id) s
      → world_run libs marshal text es s ≡ done t
      → HasRoom libs marshal text (actor_id_of game_id room_id) t
        × ((handle_web_socket libs marshal now_ms conn_id player game_id room_id t).1 ≡ none)
  room_lasts game_id room_id s es now_ms conn_id player t fresh there ran =
      let id = actor_id_of game_id room_id in
      let last =
        subst (λ o. HasRoom libs marshal text id (after o)) ran
          (steps-Kept libs marshal text (HasRoom libs marshal text id)
            (HasRoom-Kept libs marshal text id) es s fresh there) in
      (last, accepted now_ms conn_id player game_id room_id t last)
