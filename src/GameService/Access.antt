-- ===== src/GameService/Access.antt =====
-- Who gets through to the game service: the middleware of cmd/game-service/main.go, and
-- `HandleWebSocket` of internal/game/handler.go.
use Prim.Native.String.{len, slice}
use online_game.Prelude.{
  ℕ, ltb, ◌&&◌, ◌||◌, String, ◌≡◌, ◌⊎◌, inl, inr, Option, none, some, arith, if◌then◌else◌,
  Bool-cases, Option-cases,
}
use online_game.Prelude.Equality.{◌==◌, string_eq}
use online_game.Prelude.Result.{Result, returns, fails, Result-cases}
use online_game.Auth.{Claims, JwtLibrary, RedisClient, JwtManager, validate_token}
use online_game.Actor.Game.Play.{actor_id_of}
use online_game.Actor.System as System
use online_game.Websocket.Gateway as Gateway
use online_game.Websocket.Gateway.{WsMessage}
use online_game.GameService.{Libraries, RoomActor, Service}
use online_game.GameService.Http.{Player}
use online_game.GameService.Joining.{actor_at}
use online_game.GameService.Rooms.{mailbox}
use online_game.GameService.Sockets.{handle_web_socket}

-- A request is stopped with a status and the text of an error, or passed on.
pub data Gate (A : Type 0) : Type 0 where
  stopped : ℕ → String → Gate A
  passed : A → Gate A

-- A prefix `Bearer ` is taken off; a header without it is the token itself. Lengths are in bytes.
unfoldable pub token_of : String → String
token_of header =
    if ltb 7 (len header) && slice header 0 7 == "Bearer "
    then slice header 7 (len header)
    else header

-- A handler behind a gate.
unfoldable pub gated : {A S R : Type 0} → Gate A → (A → S → S × R) → S → S × Gate R
gated (stopped status text) next s = (s, stopped status text)
gated (passed a) next s = let (after, r) = next a s in (after, passed r)

module _ {R : Type 0} (lib : JwtLibrary) (redis : RedisClient R) (hash : String → String)
    (number : ℕ → String) (now : ℕ) (m : JwtManager R) where
  abbrev player_of : Result String Claims → Gate Player
  player_of (fails e) = stopped 401 "invalid token"
  player_of (returns claims) =
      passed (record { id = number claims.user_id; nickname = claims.username })

  unfoldable pub game_gate : String → Gate Player
  unfolding token_of validate_token
  game_gate header =
      let token = token_of header in
      if token == ""
      then stopped 401 "unauthorized"
      else player_of (validate_token lib redis hash now m token)

  module _ {D C V B : Type 0} (libs : Libraries D C V) (marshal : WsMessage → B) where
    abbrev connection : Service D C V B × Option ℕ → Service D C V B × Gate (Option ℕ)
    connection (s, none) = (s, passed none)
    connection (s, some status) = (s, stopped status "room not found")

    abbrev connect :
        ℕ
        → String
        → String
        → String
        → Service D C V B
        → Result String Claims
        → Service D C V B × Gate (Option ℕ)
    unfolding handle_web_socket
    connect now_ms conn_id game_id room_id s (fails e) = (s, stopped 401 "invalid token")
    connect now_ms conn_id game_id room_id s (returns claims) =
        if game_id == "" || room_id == ""
        then (s, stopped 400 "missing gameId or roomId")
        else connection (
            handle_web_socket libs marshal now_ms conn_id (number claims.user_id) game_id room_id s)

    -- The parameters of the query are empty where they are missing.
    unfoldable pub handle_ws :
        ℕ → String → String → String → String → Service D C V B → Service D C V B × Gate (Option ℕ)
    unfolding connect validate_token
    handle_ws now_ms conn_id token game_id room_id s =
        if token == ""
        then (s, stopped 401 "missing token")
        else connect now_ms conn_id game_id room_id s (validate_token lib redis hash now m token)

    -- A connection is refused with a status and nothing changes; or its token is accepted, the room has
    -- an actor, and the connection is registered for the room under the id of the token's user, whether or not
    -- that user has joined the room.
    pub handle_ws_cases :
        (now_ms : ℕ) (conn_id token game_id room_id : String) (s : Service D C V B)
        → let r = handle_ws now_ms conn_id token game_id room_id s in
          ((status : ℕ) × (text : String) × (r ≡ (s, stopped status text)))
          ⊎ ((claims : Claims) × (a : RoomActor V) × (validate_token lib redis hash now m token
                ≡ returns claims)
              × (actor_at (actor_id_of game_id room_id) s ≡ some a)
              × (r.0 ≡ record s {
                ws_gateway =
                    Gateway.serve_ws marshal now_ms conn_id
                      (number claims.user_id)
                      room_id
                      s.ws_gateway;
              }))
    unfolding handle_ws handle_web_socket actor_at
    handle_ws_cases now_ms conn_id token game_id room_id s = elim (Bool-cases (token == "")) [
      | inl empty ↦ inl (401, "missing token", ground (arith, empty))
      | inr given ↦ elim (Result-cases (validate_token lib redis hash now m token)) [
        | inl (e, bad) ↦ inl (401, "invalid token", ground (arith, given, bad))
        | inr (claims, good) ↦ elim (Bool-cases (game_id == "" || room_id == "")) [
          | inl missing ↦
              inl (400, "missing gameId or roomId", ground (arith, given, good, missing))
          | inr complete ↦
              elim (Option-cases
                (System.get mailbox (actor_id_of game_id room_id) s.actor_system)) [
                  | inl none_there ↦
                      inl (404, "room not found", ground (arith, given, good, complete, none_there))
                  | inr (a, there) ↦ inr (
                    claims,
                    a,
                    good,
                    ground (arith, there),
                    ground (arith, given, good, complete, there),
                  )
                ]
        ]
      ]
    ]
