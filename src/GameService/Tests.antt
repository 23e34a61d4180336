-- ===== src/GameService/Tests.antt =====
-- Runs of the game service on a small database, and the theorems at inputs where their hypotheses
-- hold.
use online_game.Prelude.{ℕ, String, ◌≡◌, ◌⊎◌, refl, some, [], ◌∷◌}
use online_game.Prelude.Dict.{lookup, insert}
use online_game.Prelude.Equality.{string_eq}
use online_game.Prelude.Result.{returns}
use online_game.Prelude.Value.{nil, str, object, as_string, value_at}
use online_game.User.Samples as Samples
use online_game.Auth.{Claims, validate_token}
use online_game.Actor.Game.Play.{actor_id_of}
use online_game.Websocket.Gateway.{serve_ws, WsMessage, default_gateway_config}
use online_game.Websocket.Gateway.Calls.{new_gateway-IsValid}
use online_game.GameService.{RoomActor}
use online_game.GameService.Catalog.{game_key, get_game, cached_value}
use online_game.GameService.Rooms.{create_room, actor_id}
use online_game.GameService.Visits.{handle_player_action}
use online_game.GameService.Sockets.{route_ws_message}
use online_game.GameService.Joining.{actor_at, socket_action_same}
use online_game.GameService.Silent.{chat_unheard}
use online_game.GameService.Access.{handle_ws, stopped, handle_ws_cases}
use online_game.GameService.Stale.{get_game_stale}
use online_game.GameService.Samples.{blackjack, unary, libs, marshal, opening, first_row, opened}

abbrev hit : WsMessage
hit = record {
  kind = "action";
  payload = object (("action", str "hit") ∷ ("data", nil) ∷ []);
  seq = 0;
  ts = 0;
}

socket_action_same_example :
    (handle_player_action libs 6 "r" "ann" "hit" nil opened).0
    ≡ route_ws_message libs marshal 6 0 (actor_id libs 7 "r") "ann" hit opened
unfolding opening create_room lookup as_string value_at
socket_action_same_example =
    socket_action_same libs marshal 6 0 "r" "ann" first_row hit opened refl refl

chat_unheard_example :
    route_ws_message libs marshal 6 0 "game:nnnnnnn:r" "ann" (record hit { kind = "chat" }) opening
    ≡ opening
unfolding opening
chat_unheard_example =
    chat_unheard libs marshal 6 0 "game:nnnnnnn:r" "ann" (record hit { kind = "chat" }) opening
      (new_gateway-IsValid default_gateway_config) refl

get_game_stale_example :
    let first = get_game libs 7 opening in
    let second = get_game libs 7 (record first.0 { db = (first_row ∷ [], []) }) in
    (first.1 ≡ returns blackjack)
    × (second.1 ≡ returns blackjack)
    × (second.0.cache ≡ first.0.cache)
unfolding opening lookup insert cached_value game_key
get_game_stale_example =
    get_game_stale libs 7 blackjack "bj" opening [] (first_row ∷ [], []) refl refl refl refl refl
      refl

handle_ws_cases_example :
    let m = (Samples.service []).jwt_manager in
    let r =
      handle_ws Samples.tokens Samples.no_redis
        (λ t. t)
        unary
        10
        m
        libs
        marshal
        5
        "c1"
        "k.ann"
        "nnnnnnn"
        "r"
        opened in
    ((status : ℕ) × (text : String) × (r ≡ (opened, stopped status text)))
    ⊎ ((claims : Claims) × (a : RoomActor ℕ) × (validate_token Samples.tokens Samples.no_redis
            (λ t. t)
            10
            m
            "k.ann"
          ≡ returns claims)
        × (actor_at (actor_id_of "nnnnnnn" "r") opened ≡ some a)
        × (r.0 ≡ record opened {
          ws_gateway = serve_ws marshal 5 "c1" (unary claims.user_id) "r" opened.ws_gateway;
        }))
handle_ws_cases_example =
    handle_ws_cases Samples.tokens Samples.no_redis (λ t. t) unary 10
      (Samples.service []).jwt_manager libs marshal 5 "c1" "k.ann" "nnnnnnn" "r" opened
