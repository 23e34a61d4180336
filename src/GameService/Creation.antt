-- ===== src/GameService/Creation.antt =====
-- `CreateRoom` of internal/game/service.go, and then `JoinRoom` of the room that was created.
use online_game.Prelude.{ℕ, String, ◌≡◌, true, false, none, some, List, arith}
use online_game.Prelude.Dict.{has_key, lookup-insert}
use online_game.Prelude.Equality.{◌==◌, string_eq, beq_refl}
use online_game.Prelude.Int.{ℤ}
use online_game.Prelude.Result.{returns}
use online_game.Actor.Message.{Message}
use online_game.Actor.Mailbox as Mailbox
use online_game.Actor.System as System
use online_game.Actor.Game.Play.{new_game_actor}
use online_game.GameService.{Game, GameRoom, CreateRoomRequest, Libraries, RoomActor, Service}
use online_game.GameService.Catalog.{get_game}
use online_game.GameService.Rooms.{
  mailbox, actor_id, tell_actor, room_cfg, new_room_row, create_game_actor, open_room,
  create_room_for, create_room,
}
use online_game.GameService.Visits.{join_room, join_found, sent_then, player_row}
use online_game.GameService.Joining.{actor_at, join_message}

module _ {D C V : Type 0} (libs : Libraries D C V) where
  -- The actor that `createGameActor` registers.
  unfoldable pub room_actor : ℕ → Game → String → ℤ → RoomActor V
  unfolding Mailbox.start new_game_actor room_cfg
  room_actor now game room_id max_players =
      Mailbox.start (new_game_actor (room_cfg libs now game room_id max_players) now)

-- The registry has a running actor under the id, with these messages to handle and space for 256.
abbrev pub Waiting : {D C V B : Type 0} → String → List Message → Service D C V B → Type 0
Waiting {V} id msgs s =
    (a : RoomActor V) × (actor_at id s ≡ some a)
    × (a.running ≡ true)
    × (a.inbox_cap ≡ 256)
    × (a.inbox ≡ msgs)

module _ {D C V B : Type 0} (libs : Libraries D C V) where
  pub create_game_actor_lem :
      (now : ℕ) (game : Game) (room_id : String) (max_players : ℤ) (s : Service D C V B)
      → has_key (actor_id libs game.id room_id) s.actor_system.actors ≡ false
      → actor_at
          (actor_id libs game.id room_id)
          (create_game_actor libs now game room_id max_players s).0
        ≡ some (room_actor libs now game room_id max_players)
  unfolding actor_at create_game_actor System.register System.get mailbox Mailbox.new_base_actor
      new_game_actor actor_id room_actor room_cfg
  create_game_actor_lem now game room_id max_players s fresh = ground (
    arith,
    fresh,
    beq_refl (actor_id libs game.id room_id),
    lookup-insert (actor_id libs game.id room_id) (actor_id libs game.id room_id)
        (room_actor libs now game room_id max_players) s.actor_system.actors,
  )

  pub join_room_taken :
      (now : ℕ) (room_id player_id nickname : String) (room : GameRoom) (s : Service D C V B)
      → libs.db.first_room s.db room_id ≡ returns room
      → (room.status == "closed") ≡ false
      → (room.status == "playing") ≡ false
      → let told =
          tell_actor libs
            (actor_id libs room.game_id room_id)
            (join_message now player_id nickname)
            s in
        told.1 ≡ none
        → join_room libs now room_id player_id nickname s ≡ (
          record told.0 {
            db = libs.db.create_player told.0.db (player_row now room_id player_id nickname);
          },
          none,
        )
  unfolding join_room join_found sent_then join_message
  join_room_taken now room_id player_id nickname room s there usable idle ok =
      ground (arith, there, usable, idle, ok)

  module _ (now : ℕ) (room_id player_id nickname : String) (req : CreateRoomRequest)
      (s looked_up : Service D C V B) (game : Game) (row : GameRoom) (db : D)
      (game_found : get_game libs req.game_id s ≡ (looked_up, returns game))
      (same : req.game_id ≡ game.id)
      (made : libs.db.create_room looked_up.db (new_room_row game room_id player_id nickname req)
        ≡ (db, returns row))
      (fresh : has_key (actor_id libs game.id room_id) looked_up.actor_system.actors ≡ false) where
    pub create_room_on : create_room libs now room_id player_id nickname req s ≡ (
      open_room libs now game room_id player_id nickname req (record looked_up { db = db }),
      returns row,
    )
    unfolding create_room create_room_for
    create_room_on = ground (arith, game_found, made)
