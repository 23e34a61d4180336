-- ===== src/GameService/Joining.antt =====
-- A room that is created can be joined: what the calls of internal/game/service.go leave in the inbox
-- of the room's actor and in the database.
use online_game.Prelude.{
  ℕ, String, ◌≡◌, refl, ◌⊎◌, inl, inr, true, false, Option, none, some, [], ◌∷◌, ◌++◌, length, ◌<◌,
  arith, Option-cases, Bool-cases,
}
use online_game.Prelude.Dict.{lookup, lookup-insert}
use online_game.Prelude.Equality.{◌==◌, string_eq, beq_refl}
use online_game.Prelude.Result.{returns, Result-cases}
use online_game.Prelude.Value.{str, as_string, value_at}
use online_game.Api.Error.{
  AppError, named, with_data, with_message, err_internal_server, err_room_not_found,
  err_room_not_joinable, err_game_running,
}
use online_game.Actor.Message.{MsgType, Message, new_message}
use online_game.Actor.Mailbox as Mailbox
use online_game.Actor.Mailbox.{BaseActor, SendError}
use online_game.Actor.Mailbox.Laws.{send_cases}
use online_game.Actor.System as System
use online_game.Actor.System.{SystemError}
use online_game.Websocket.Gateway.{WsMessage}
use online_game.GameService.{GameRoom, Libraries, RoomActor, Service}
use online_game.GameService.Catalog.{missing_or}
use online_game.GameService.Rooms.{mailbox, actor_id, tell_actor, join_payload, error_text}
use online_game.GameService.Visits.{
  join_found, join_room, sent_then, player_row, handle_player_action,
}
use online_game.GameService.Sockets.{route_ws_message}

-- The room's actor, as the registry has it.
unfoldable pub actor_at : {D C V B : Type 0} → String → Service D C V B → Option (RoomActor V)
unfolding System.get mailbox
actor_at id s = System.get mailbox id s.actor_system

unfoldable pub join_message : ℕ → String → String → Message
unfolding new_message
join_message now player_id nickname =
    new_message now MsgType.player_join player_id (join_payload nickname)

module _ {D C V B : Type 0} (libs : Libraries D C V) where
  -- A message that is taken stands at the end of the inbox of its actor, and the database is as before.
  pub tell_actor_ok :
      (id : String) (m : Message) (s : Service D C V B) (a : RoomActor V)
      → actor_at id s ≡ some a
      → a.running ≡ true
      → length a.inbox < a.inbox_cap
      → ((tell_actor libs id m s).1 ≡ none)
        × (actor_at id (tell_actor libs id m s).0 ≡ some (record a { inbox = a.inbox ++ m ∷ [] }))
        × ((tell_actor libs id m s).0.db ≡ s.db)
  unfolding actor_at tell_actor System.send_to System.get mailbox Mailbox.send
  tell_actor_ok id m s a found on room = ground (
    arith,
    found,
    on,
    lookup-insert id id (record a { inbox = a.inbox ++ m ∷ [] }) s.actor_system.actors,
    beq_refl id,
  )

  -- A message is refused, or it is taken by an actor that runs.
  abbrev Told : String → Message → Service D C V B → Type 0
  Told id m s =
      ((e : SystemError SendError) × ((tell_actor libs id m s).1 ≡ some e))
      ⊎ (((tell_actor libs id m s).1 ≡ none)
          × ((a : RoomActor V) × (actor_at id s ≡ some a)
              × (a.running ≡ true)
              × (actor_at id (tell_actor libs id m s).0
                  ≡ some (record a { inbox = a.inbox ++ m ∷ [] }))))

  tell_actor-db :
      (id : String) (m : Message) (s : Service D C V B) → (tell_actor libs id m s).0.db ≡ s.db
  unfolding tell_actor
  tell_actor-db id m s = refl

  tell_actor-Told : (id : String) (m : Message) (s : Service D C V B) → Told id m s
  unfolding actor_at tell_actor System.send_to System.get mailbox
  tell_actor-Told id m s = elim (Option-cases (lookup id s.actor_system.actors)) [
    | inl missing ↦ inl (SystemError.actor_not_found id, ground (arith, missing))
    | inr (a, found) ↦ elim (send_cases m a) [
      | inl (off, e) ↦ inl (SystemError.from_actor Mailbox.not_running, ground (arith, found, e))
      | inr (inl (on, full, e)) ↦
          inl (SystemError.from_actor Mailbox.inbox_full, ground (arith, found, e))
      | inr (inr (on, room, e)) ↦ inr (
        ground (arith, found, e),
        (
          a,
          found,
          on,
          ground (
            arith,
            found,
            e,
            beq_refl id,
            lookup-insert id id (record a { inbox = a.inbox ++ m ∷ [] }) s.actor_system.actors,
          ),
        ),
      )
    ]
  ]

  sent_then_cases :
      (id : String) (m : Message) (k : Service D C V B → Service D C V B) (s : Service D C V B)
      → let r = sent_then libs id k (tell_actor libs id m s) in
        ((e : AppError) × (r.1 ≡ some e) × (r.0.db ≡ s.db))
        ⊎ ((a : RoomActor V) × (actor_at id s ≡ some a)
            × (a.running ≡ true)
            × (r.1 ≡ none)
            × (r.0 ≡ k (tell_actor libs id m s).0)
            × (actor_at id (tell_actor libs id m s).0
                ≡ some (record a { inbox = a.inbox ++ m ∷ [] })))
  unfolding sent_then
  sent_then_cases id m k s = elim (tell_actor-Told id m s) [
    | inl (e, refused) ↦ inl (
      with_data (str (error_text libs.number id e)) (named err_internal_server),
      ground (arith, refused),
      ground (arith, refused, tell_actor-db id m s),
    )
    | inr (ok, (a, found, on, after)) ↦
        inr (a, found, on, ground (arith, ok), ground (arith, ok), after)
  ]

  -- The parts of a successful `JoinRoom`.
  abbrev pub Joined :
      ℕ
      → String
      → String
      → String
      → GameRoom
      → Service D C V B
      → Service D C V B × Option AppError
      → Type 0
  Joined now room_id player_id nickname room s r =
      let id = actor_id libs room.game_id room_id in
      (a : RoomActor V) × (actor_at id s ≡ some a)
      × (a.running ≡ true)
      × ((room.status == "closed") ≡ false)
      × ((room.status == "playing") ≡ false)
      × (r.1 ≡ none)
      × (actor_at id r.0
          ≡ some (record a { inbox = a.inbox ++ join_message now player_id nickname ∷ [] }))
      × (r.0.db ≡ libs.db.create_player s.db (player_row now room_id player_id nickname))

  join_found_cases :
      (now : ℕ) (room_id player_id nickname : String) (room : GameRoom) (s : Service D C V B)
      → let r = join_found libs now room_id player_id nickname s room in
        ((e : AppError) × (r.1 ≡ some e) × (r.0.db ≡ s.db))
        ⊎ Joined now room_id player_id nickname room s r
  unfolding actor_at join_found join_message
  join_found_cases now room_id player_id nickname room s =
      elim (Bool-cases (room.status == "closed")) [
        | inl closed ↦
            inl (named err_room_not_joinable, ground (arith, closed), ground (arith, closed))
        | inr usable ↦ elim (Bool-cases (room.status == "playing")) [
          | inl playing ↦ inl (
            with_message "游戏进行中，无法加入" (named err_game_running),
            ground (arith, usable, playing),
            ground (arith, usable, playing),
          )
          | inr waiting ↦
              elim (sent_then_cases (actor_id libs room.game_id room_id)
                (join_message now player_id nickname)
                (λ s'. record s' {
                  db = libs.db.create_player s'.db (player_row now room_id player_id nickname);
                })
                s) [
                  | inl (e, failed, same) ↦
                      inl (e, rw (usable, waiting) failed, rw (usable, waiting) same)
                  | inr (a, found, on, ok, after, inbox) ↦ inr (
                    a,
                    found,
                    on,
                    usable,
                    waiting,
                    rw (usable, waiting) ok,
                    ground (arith, usable, waiting, ok, after, inbox),
                    ground (
                      arith,
                      usable,
                      waiting,
                      ok,
                      after,
                      tell_actor-db (actor_id libs room.game_id room_id)
                          (join_message now player_id nickname) s,
                    ),
                  )
                ]
        ]
      ]

  join_room_on :
      (now : ℕ) (room_id player_id nickname : String) (room : GameRoom) (s : Service D C V B)
      → libs.db.first_room s.db room_id ≡ returns room
      → join_room libs now room_id player_id nickname s
        ≡ join_found libs now room_id player_id nickname s room
  unfolding join_room
  join_room_on now room_id player_id nickname room s there = ground (arith, there)

  -- `JoinRoom` fails and leaves the database as it is. Or it succeeds, for a room of the database that
  -- is neither closed nor playing and whose actor runs: then the message stands at the end of the
  -- actor's inbox and the player is recorded.
  join_room_cases :
      (now : ℕ) (room_id player_id nickname : String) (s : Service D C V B)
      → let r = join_room libs now room_id player_id nickname s in
        ((e : AppError) × (r.1 ≡ some e) × (r.0.db ≡ s.db))
        ⊎ ((room : GameRoom) × (libs.db.first_room s.db room_id ≡ returns room)
            × Joined now room_id player_id nickname room s r)
  unfolding join_room
  join_room_cases now room_id player_id nickname s =
      elim (Result-cases (libs.db.first_room s.db room_id)) [
        | inl (e, missing) ↦ inl (
          missing_or (named err_room_not_found) e,
          ground (arith, missing),
          ground (arith, missing),
        )
        | inr (room, there) ↦
            let same = join_room_on now room_id player_id nickname room s there in
            elim (join_found_cases now room_id player_id nickname room s) [
              | inl (e, failed, kept) ↦ inl (e, rw same failed, rw same kept)
              | inr joined ↦ inr (room, there, rw same joined)
            ]
      ]

  -- An action over HTTP and an action over the WebSocket of the same room do the same to the service.
  pub socket_action_same :
      (marshal : WsMessage → B) (now now_ms : ℕ) (room_id player_id : String) (room : GameRoom)
      (msg : WsMessage) (s : Service D C V B)
      → libs.db.first_room s.db room_id ≡ returns room
      → (msg.kind == "action") ≡ true
      → (handle_player_action libs now room_id player_id
          (as_string (value_at "action" msg.payload))
          (value_at "data" msg.payload)
          s).0
        ≡ route_ws_message libs marshal now now_ms
            (actor_id libs room.game_id room_id)
            player_id
            msg
            s
  unfolding handle_player_action route_ws_message sent_then
  socket_action_same marshal now now_ms room_id player_id room msg s there action =
      ground (arith, there, action)
