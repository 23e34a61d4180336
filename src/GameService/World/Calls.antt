-- ===== src/GameService/World/Calls.antt =====
-- Every call of the game service, every message of a connection and every move is made of a few changes
-- of the service: what they keep, every history keeps.
use mathlib.Core.Path.{subst}
use online_game.Prelude.{
  refl, sym, ℕ, String, ◌≡◌, none, Option-cases, inl, inr, Bool-cases, Option, List, [], ◌∷◌,
}
use online_game.Prelude.Dict.{lookup}
use online_game.Prelude.Equality.{◌==◌, string_eq}
use online_game.Prelude.Int.{ℤ}
use online_game.Prelude.Result.{Result, returns, fails, Result-cases}
use online_game.Prelude.Value.{Value, nil, as_string, value_at}
use online_game.Api.Error.{AppError}
use online_game.Actor.Message.{MsgType, Message, value, new_message, action_message}
use online_game.Actor.System.{ActorSystem, new_actor_system}
use online_game.Actor.Game.Play.{actor_id_of}
use online_game.Websocket.Gateway.{WsMessage, Gateway, Outcome, done, panics, after, unregister}
use online_game.GameService.{Game, GameRoom, CreateRoomRequest, Libraries, Service}
use online_game.GameService.Catalog.{get_game}
use online_game.GameService.Rooms.{
  actor_id, tell_actor, create_game_actor, invalidate_room_cache, open_room, create_room_for,
  create_room, new_room_row,
}
use online_game.GameService.Visits.{
  join_found, join_room, leave_room, start_game, handle_player_action, close_room, sent_then,
  player_row, session_row,
}
use online_game.GameService.Joining.{join_message}
use online_game.GameService.Sockets.{chat_data, handle_web_socket, route_ws_message}
use online_game.GameService.World.{
  Step, creates, joins, leaves, starts, acts, closes, connects, hears, disconnects, moves,
  world_step, world_run, with_gateway, then_run, disconnected, Runner, move,
}
use online_game.Actor.Mailbox.{Event}
use online_game.Actor.System as System
use online_game.Websocket.Gateway.Histories as GatewayHistories

module _ {D C V B : Type 0} (libs : Libraries D C V) (marshal : WsMessage → B)
    (text : ℤ → String) where
  -- The UUID of a new connection is not in use.
  abbrev pub Fresh : Step V → Service D C V B → Type 0
  Fresh (connects now_ms conn_id player game_id room_id) s =
      lookup conn_id s.ws_gateway.conns ≡ none
  Fresh e s = Unit {0}

  -- What must hold of a step's result if the process goes on.
  abbrev OnDone : (Service D C V B → Type 0) → Outcome (Service D C V B) → Type 0
  OnDone F (done s) = F s
  OnDone F (panics s) = Unit {0}

  abbrev pub FreshAll : List (Step V) → Service D C V B → Type 0
  FreshAll [] s = Unit {0}
  FreshAll (e ∷ es) s = Fresh e s × OnDone (FreshAll es) (world_step libs marshal text e s)

  -- After the last step nothing is asked, whether or not it ends the process.
  pub FreshAll-last : (o : Outcome (Service D C V B)) → OnDone (FreshAll []) o
  FreshAll-last (done s) = tt
  FreshAll-last (panics s) = tt

  -- What the elementary changes keep: a message to a room, a write to the database or the cache, a new
  -- room, a call of the gateway with a fresh connection, and a move of a room's goroutine.
  pub record Kept (P : Service D C V B → Type 0) : Type 0 where
    pub told :
        (id : String) (m : Message) (s : Service D C V B) → P s → P (tell_actor libs id m s).0
    pub stored :
        (db : D) (cache : Option C) (s : Service D C V B)
        → P s
        → P (record s { db = db; cache = cache })
    pub registered :
        (now : ℕ) (game : Game) (room_id : String) (max : ℤ) (s : Service D C V B)
        → P s
        → P (create_game_actor libs now game room_id max s).0
    pub reached :
        (c : GatewayHistories.Call) (s : Service D C V B)
        → GatewayHistories.Fresh marshal c s.ws_gateway
        → P s
        → P (record s { ws_gateway = GatewayHistories.call marshal c s.ws_gateway })
    pub moved :
        (r : Runner V) (id : String) (e : Event Message) (s : Service D C V B)
        → P s
        → P (move libs marshal text r id e s)

  module _ (P : Service D C V B → Type 0) (kept : Kept P) where
    saved-Kept : (db : D) (s : Service D C V B) → P s → P (record s { db = db })
    saved-Kept db s v = kept.stored db s.cache s v

    open_room-Kept :
        (now : ℕ) (game : Game) (room_id player nickname : String) (req : CreateRoomRequest)
        (s : Service D C V B)
        → P s
        → P (open_room libs now game room_id player nickname req s)
    unfolding open_room invalidate_room_cache
    open_room-Kept now game room_id player nickname req s v =
        kept.told _ _ _ (kept.stored _ _ _ (kept.registered now game room_id _ s v))

    create_room_for-Kept :
        (now : ℕ) (room_id player nickname : String) (req : CreateRoomRequest) (s : Service D C V B)
        (game : Result AppError Game)
        → P s
        → P (create_room_for libs now room_id player nickname req s game).0
    unfolding create_room_for
    create_room_for-Kept now room_id player nickname req s (fails e) v = v
    create_room_for-Kept now room_id player nickname req s (returns game) v =
        elim (Result-cases
          (libs.db.create_room s.db (new_room_row game room_id player nickname req)).1) [
            | inl (e, failed) ↦ rw (failed, create_room_for) (saved-Kept _ s v)
            | inr (room, made) ↦
                rw (made, create_room_for)
                  (open_room-Kept now game room_id player nickname req _ (saved-Kept _ s v))
          ]

    create_room-Kept :
        (now : ℕ) (room_id player nickname : String) (req : CreateRoomRequest) (s : Service D C V B)
        → P s
        → P (create_room libs now room_id player nickname req s).0
    unfolding create_room get_game
    create_room-Kept now room_id player nickname req s v =
        create_room_for-Kept now room_id player nickname req _ _ (kept.stored s.db _ s v)

    -- A message that must reach its room, and a change of the database then.
    sent_then-Kept :
        (to : String) (m : Message) (write : D → D) (s : Service D C V B)
        → P s
        → P (sent_then libs to (λ t. record t { db = write t.db }) (tell_actor libs to m s)).0
    unfolding sent_then
    sent_then-Kept to m write s v =
        let told = kept.told to m s v in
        elim (Option-cases (tell_actor libs to m s).1) [
          | inl taken ↦ rw (taken, sent_then) (saved-Kept _ _ told)
          | inr (e, refused) ↦ rw (refused, sent_then) told
        ]

    join_found-Kept :
        (now : ℕ) (room_id player nickname : String) (s : Service D C V B) (room : GameRoom)
        → P s
        → P (join_found libs now room_id player nickname s room).0
    unfolding join_found join_message
    join_found-Kept now room_id player nickname s room v =
        elim (Bool-cases (room.status == "closed")) [
          | inl closed ↦ rw (closed, join_found) v
          | inr free ↦ elim (Bool-cases (room.status == "playing")) [
            | inl playing ↦ rw (free, playing, join_found) v
            | inr waiting ↦
                rw (free, waiting, join_found)
                  (sent_then-Kept (actor_id libs room.game_id room_id)
                    (join_message now player nickname)
                    (λ db. libs.db.create_player db (player_row now room_id player nickname)) s v)
          ]
        ]

    -- The calls for a room that the database has, or has not.
    calls-Kept :
        (now : ℕ) (room_id player nickname action : String) (details : Value) (s : Service D C V B)
        → P s
        → P (join_room libs now room_id player nickname s).0
          × P (leave_room libs now room_id player s).0
          × P (start_game libs now room_id s).0
          × P (handle_player_action libs now room_id player action details s).0
          × P (close_room libs now room_id s).0
    unfolding join_room leave_room start_game handle_player_action close_room
    calls-Kept now room_id player nickname action details s v =
        elim (Result-cases (libs.db.first_room s.db room_id)) [
          | inl (e, missing) ↦ (
            rw (missing, join_room) v,
            rw (missing, leave_room) v,
            rw (missing, start_game) v,
            rw (missing, handle_player_action) v,
            rw (missing, close_room) v,
          )
          | inr (room, found) ↦ (
            rw (found, join_room) (join_found-Kept now room_id player nickname s room v),
            rw (found, leave_room) (saved-Kept _ _ (kept.told _ _ s v)),
            rw (found, start_game)
                (sent_then-Kept (actor_id libs room.game_id room_id)
                  (new_message now MsgType.game_start "" (value nil))
                  (λ db. libs.db.create_session db (session_row now room room_id)) s v),
            rw (found, handle_player_action)
                (sent_then-Kept (actor_id libs room.game_id room_id)
                  (action_message now player action details) (λ db. db) s v),
            rw (found, close_room) (saved-Kept _ _ (kept.told _ _ s v)),
          )
        ]

    -- A message of a connection for its room, or for everybody.
    route_ws_message-Kept :
        (now now_ms : ℕ) (id player : String) (msg : WsMessage) (s : Service D C V B)
        → P s
        → P (route_ws_message libs marshal now now_ms id player msg s)
    unfolding route_ws_message GatewayHistories.call
    route_ws_message-Kept now now_ms id player msg s v = elim (Bool-cases (msg.kind == "action")) [
      | inl told ↦ rw (told, route_ws_message) (kept.told id _ s v)
      | inr plain ↦ elim (Bool-cases (msg.kind == "ready")) [
        | inl told ↦ rw (plain, told, route_ws_message) (kept.told id _ s v)
        | inr nor ↦ elim (Bool-cases (msg.kind == "chat")) [
          | inl told ↦
              rw (plain, nor, told, route_ws_message)
                (kept.reached
                  (GatewayHistories.broadcasts now_ms "" "chat"
                    (chat_data libs marshal player (as_string (value_at "message" msg.payload))))
                  s tt v)
          | inr ignored ↦ rw (plain, nor, ignored, route_ws_message) v
        ]
      ]
    ]

    handle_web_socket-Kept :
        (now_ms : ℕ) (conn_id player game_id room_id : String) (s : Service D C V B)
        → lookup conn_id s.ws_gateway.conns ≡ none
        → P s
        → P (handle_web_socket libs marshal now_ms conn_id player game_id room_id s).0
    unfolding handle_web_socket GatewayHistories.call System.get
    handle_web_socket-Kept now_ms conn_id player game_id room_id s fresh v =
        elim (Option-cases (lookup (actor_id_of game_id room_id) s.actor_system.actors)) [
          | inl missing ↦ rw (missing, handle_web_socket, System.get) v
          | inr (a, found) ↦
              rw (found, handle_web_socket, System.get)
                (kept.reached (GatewayHistories.serves now_ms conn_id player room_id) s fresh v)
        ]

    after-with_gateway :
        (s : Service D C V B) (o : Outcome (Gateway B))
        → after (with_gateway libs marshal text s o) ≡ record s { ws_gateway = after o }
    after-with_gateway s (done g) = refl
    after-with_gateway s (panics g) = refl

    world_step-Kept :
        (e : Step V) (s : Service D C V B)
        → Fresh e s
        → P s
        → P (after (world_step libs marshal text e s))
    unfolding world_step disconnected GatewayHistories.call
    world_step-Kept (creates now room_id player nickname req) s f v =
        create_room-Kept now room_id player nickname req s v
    world_step-Kept (joins now room_id player nickname) s f v =
        (calls-Kept now room_id player nickname "" nil s v).0
    world_step-Kept (leaves now room_id player) s f v =
        (calls-Kept now room_id player "" "" nil s v).1
    world_step-Kept (starts now room_id) s f v = (calls-Kept now room_id "" "" "" nil s v).2
    world_step-Kept (acts now room_id player action details) s f v =
        (calls-Kept now room_id player "" action details s v).3
    world_step-Kept (closes now room_id) s f v = (calls-Kept now room_id "" "" "" nil s v).4
    world_step-Kept (connects now_ms conn_id player game_id room_id) s f v =
        handle_web_socket-Kept now_ms conn_id player game_id room_id s f v
    world_step-Kept (hears now now_ms id player msg) s f v =
        route_ws_message-Kept now now_ms id player msg s v
    world_step-Kept (disconnects conn_id) s f v =
        subst P (sym (after-with_gateway s (unregister conn_id s.ws_gateway)))
          (kept.reached (GatewayHistories.unregisters conn_id) s tt v)
    world_step-Kept (moves r id e) s f v = kept.moved r id e s v

    then_run-Kept :
        (k : Service D C V B → Outcome (Service D C V B)) (F : Service D C V B → Type 0)
        (o : Outcome (Service D C V B))
        → ((s : Service D C V B) → F s → P s → P (after (k s)))
        → OnDone F o
        → P (after o)
        → P (after (then_run libs marshal text k o))
    then_run-Kept k F (done s) next f v = next s f v
    then_run-Kept k F (panics s) next f v = v

    -- What every elementary change keeps, every history keeps, also where a panic ends it.
    pub steps-Kept :
        (es : List (Step V)) (s : Service D C V B)
        → FreshAll es s
        → P s
        → P (after (world_run libs marshal text es s))
    unfolding world_run
    steps-Kept [] s f v = v
    steps-Kept (e ∷ es) s (f, fs) v =
        then_run-Kept (world_run libs marshal text es) (FreshAll es)
          (world_step libs marshal text e s) (steps-Kept es) fs (world_step-Kept e s f v)
