-- ===== src/GameService/World/Arrivals.antt =====
-- From a call of internal/game/service.go to the seat of a player: the calls of rooms together with
-- the room's next receive.
use online_game.Prelude.{
  ℕ, String, ◌≡◌, refl, ◌∙◌, ap, none, some, List, [], ◌∷◌, ◌++◌, arith, true, false, length, ◌≤◌,
  ◌<◌, if◌then◌else◌, ◌⊎◌,
}
use online_game.Prelude.Dict.{insert, lookup-insert}
use online_game.Prelude.Equality.{◌==◌, string_eq, beq_refl}
use online_game.Prelude.Int.{ℤ, pos_part}
use online_game.Prelude.Result.{returns}
use online_game.Actor.Message.{Message}
use online_game.Actor.Mailbox.{
  Handler, BaseActor, looping, receives, step, process_message, state_of,
}
use online_game.Actor.System as System
use online_game.Actor.Game.{Effect, GameActor, emit}
use online_game.Actor.Game.Play.{handle_message, dispatch}
use online_game.Actor.Game.Membership.{error_data}
use online_game.Actor.Game.Seats.{join_refused}
use online_game.Engine.{GojaEngine}
use online_game.Engine.Goja.{engine_interface}
use online_game.Websocket.Gateway as Gateway
use online_game.Websocket.Gateway.{WsMessage}
use online_game.GameService.{GameRoom, Libraries, RoomActor, Service}
use online_game.GameService.Rooms.{mailbox, actor_id, tell_actor}
use online_game.GameService.Visits.{join_room, player_row}
use online_game.GameService.Sockets.{apply_effect, apply_effects, room_adapter}
use online_game.GameService.Joining.{actor_at, join_message, tell_actor_ok}
use online_game.GameService.Creation.{join_room_taken}
use online_game.GameService.World.{Runner, moved, move, room_handler, after_first}

module _ {M S : Type 0} (handler : Handler M S) where
  -- The loop of `run` with a message in the inbox: the handler's state is the room's.
  receives_lem :
      (m : M) (rest : List M) (a : BaseActor M S)
      → a.phase ≡ looping
      → a.inbox ≡ m ∷ rest
      → step handler receives a ≡ some (process_message handler m (record a { inbox = rest }))
  unfolding step
  receives_lem m rest a on first = ground (arith, on, first)

  pub process_message-state :
      (m : M) (a : BaseActor M S)
      → (process_message handler m a).state ≡ state_of (handler m a.state)
  unfolding process_message
  process_message-state m a = ground arith

after_first-length : {A : Type 0} → (xs ys : List A) → after_first (length xs) (xs ++ ys) ≡ ys
unfolding after_first
after_first-length [] ys = refl
after_first-length (x ∷ xs) ys = after_first-length xs ys

module _ {D C V B : Type 0} (libs : Libraries D C V) (marshal : WsMessage → B)
    (text : ℤ → String) where
  apply_effect-actors :
      (now now_ms : ℕ) (e : Effect) (s : Service D C V B)
      → (apply_effect libs marshal now now_ms e s).actor_system ≡ s.actor_system
  unfolding apply_effect
  apply_effect-actors now now_ms e s = ground arith

  pub apply_effects-actors :
      (now now_ms : ℕ) (es : List Effect) (s : Service D C V B)
      → (apply_effects libs marshal now now_ms es s).actor_system ≡ s.actor_system
  unfolding apply_effects
  apply_effects-actors now now_ms [] s = refl
  apply_effects-actors now now_ms (e ∷ es) s =
      apply_effects-actors now now_ms es _ ∙ apply_effect-actors now now_ms e s

  pub move_on :
      (r : Runner V) (id : String) (m : Message) (rest : List Message) (a : RoomActor V)
      (s : Service D C V B)
      → actor_at id s ≡ some a
      → a.phase ≡ looping
      → a.inbox ≡ m ∷ rest
      → move libs marshal text r id receives s
        ≡ moved libs marshal text r id a
            (some (process_message (room_handler libs text r s.db) m (record a { inbox = rest })))
            s
  unfolding move actor_at
  move_on r id m rest a s found on first =
      rw (found, move, receives_lem (room_handler libs text r s.db) m rest a on first) refl

  -- The room's state after it has received a message.
  pub moved-state :
      (r : Runner V) (id : String) (a b : RoomActor V) (s : Service D C V B)
      → actor_at id (moved libs marshal text r id a (some b) s) ≡ some b
  unfolding moved actor_at System.get mailbox
  moved-state r id a b s =
      rw (moved, actor_at, System.get, mailbox, apply_effects-actors, lookup-insert, beq_refl) refl

  -- What a room has told the adapters when it has received one message.
  moved-effects :
      (r : Runner V) (id : String) (a b : RoomActor V) (s : Service D C V B) (e : Effect)
      → b.state ≡ emit e a.state
      → moved libs marshal text r id a (some b) s
        ≡ apply_effect libs marshal r.now r.now_ms e (record s {
          actor_system = record s.actor_system { actors = insert id b s.actor_system.actors };
        })
  unfolding moved apply_effects
  moved-effects r id a b s e went =
      let told : after_first (length a.state.effects) b.state.effects ≡ e ∷ [] =
        ap (λ g. after_first (length a.state.effects) g.effects) went
        ∙ after_first-length a.state.effects (e ∷ []) in
      rw (moved, told, apply_effects) refl

  -- The answer of a room that does not seat a player.
  abbrev refusal : String → GameActor (GojaEngine V) → Effect
  refusal player ga =
      Effect.send_to player "error"
        (if ga.is_playing then error_data 46402 "游戏进行中，无法加入" else error_data 46901 "房间已满")

  refused-state :
      (r : Runner V) (now : ℕ) (player nickname : String) (db : D) (a : RoomActor V)
      → (a.state.is_playing ≡ true) ⊎ (pos_part a.state.max_players ≤ length a.state.players)
      → (process_message (room_handler libs text r db) (join_message now player nickname) a).state
        ≡ emit (refusal player a.state) a.state
  unfolding room_handler handle_message dispatch join_message
  refused-state r now player nickname db a refused =
      let engine =
        engine_interface libs.runtime (room_adapter libs db) libs.number text r.elapsed r.order in
      process_message-state (room_handler libs text r db) (join_message now player nickname) a
      ∙ ap state_of (join_refused engine r.env (join_message now player nickname) a.state refused)

  move-refused :
      (r : Runner V) (id : String) (now : ℕ) (player nickname : String) (a : RoomActor V)
      (s : Service D C V B)
      → actor_at id s ≡ some a
      → a.phase ≡ looping
      → a.inbox ≡ join_message now player nickname ∷ []
      → (a.state.is_playing ≡ true) ⊎ (pos_part a.state.max_players ≤ length a.state.players)
      → let t = move libs marshal text r id receives s in
        (t.db ≡ s.db)
        × ((b : RoomActor V) × (actor_at id t ≡ some b) × (b.state.players ≡ a.state.players))
        × (t.ws_gateway
            ≡ (apply_effect libs marshal r.now r.now_ms (refusal player a.state) s).ws_gateway)
  unfolding apply_effect
  move-refused r id now player nickname a s found loop first refused =
      let taken = record a { inbox = [] } in
      let b =
        process_message (room_handler libs text r s.db) (join_message now player nickname) taken in
      let went = refused-state r now player nickname s.db taken refused in
      let all =
        move_on r id (join_message now player nickname) [] a s found loop first
        ∙ moved-effects r id a b s (refusal player a.state) went in
      (
        ap (λ t. t.db) all,
        (
          b,
          ap (actor_at id) (move_on r id (join_message now player nickname) [] a s found loop first)
              ∙ moved-state r id a b s,
          ap (λ g. g.players) went,
        ),
        ap (λ t. t.ws_gateway) all,
      )

  -- Of a room that the database has and that is neither closed nor playing there, whose actor
  -- runs, has handled all of its messages and has space for one, while the actor itself is playing
  -- or has no free seat: `JoinRoom` answers no error and records the player; and when the actor
  -- has received the message, its players are as before, the database is as `JoinRoom` left it,
  -- and the gateway has sent the player the error of a game that is on or of a full room.
  pub join_room-refused :
      (now : ℕ) (room_id player nickname : String) (room : GameRoom) (a : RoomActor V)
      (s : Service D C V B) (r : Runner V)
      → libs.db.first_room s.db room_id ≡ returns room
      → (room.status == "closed") ≡ false
      → (room.status == "playing") ≡ false
      → actor_at (actor_id libs room.game_id room_id) s ≡ some a
      → a.running ≡ true
      → a.phase ≡ looping
      → a.inbox ≡ []
      → 0 < a.inbox_cap
      → (a.state.is_playing ≡ true) ⊎ (pos_part a.state.max_players ≤ length a.state.players)
      → let j = join_room libs now room_id player nickname s in
        let t = move libs marshal text r (actor_id libs room.game_id room_id) receives j.0 in
        (j.1 ≡ none)
        × (t.db ≡ libs.db.create_player s.db (player_row now room_id player nickname))
        × ((b : RoomActor V) × (actor_at (actor_id libs room.game_id room_id) t ≡ some b)
            × (b.state.players ≡ a.state.players))
        × (t.ws_gateway
            ≡ Gateway.send_to marshal r.now_ms player "error"
                (if a.state.is_playing
                  then error_data 46402 "游戏进行中，无法加入"
                  else error_data 46901 "房间已满")
                s.ws_gateway)
  unfolding actor_at apply_effect tell_actor
  join_room-refused now room_id player nickname room a s r there usable idle found on loop empty
        space refused =
      let id = actor_id libs room.game_id room_id in
      let m = join_message now player nickname in
      let (taken, after, same) = tell_actor_ok libs id m s a found on (rw empty space) in
      let joined =
        join_room_taken libs now room_id player nickname room s there usable idle taken in
      let t = (join_room libs now room_id player nickname s).0 in
      let (kept, seats, told) =
        move-refused r id now player nickname (record a { inbox = m ∷ [] }) t
          (ap (λ q. actor_at id q.0) joined
            ∙ after
            ∙ ap (λ l. some (record a { inbox = l ++ m ∷ [] })) empty)
          loop refl refused in
      (
        ap (λ q. q.1) joined,
        kept
            ∙ ap (λ q. q.0.db) joined
            ∙ ap (λ d. libs.db.create_player d (player_row now room_id player nickname)) same,
        seats,
        told
            ∙ ap
                (λ q.
                  (apply_effect libs marshal r.now r.now_ms (refusal player a.state)
                    q.0).ws_gateway)
                joined,
      )
