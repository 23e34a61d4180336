-- ===== src/ApiGateway/Tests.antt =====
-- The theorems on the gateway at inputs where their hypotheses hold.
use Prim.Native.String
use Prim.Native.String.{String}
use online_game.Prelude.{
  ℕ, List, ◌≡◌, ◌≢◌, ◌⊎◌, refl, true, false, Option, none, some, [], ◌∷◌, if◌then◌else◌,
}
use online_game.Prelude.Dict.{lookup}
use online_game.Prelude.Equality.{◌==◌, string_eq}
use online_game.Prelude.Int.{ℤ, pos}
use online_game.Prelude.Result.{Result, returns}
use online_game.Prelude.Text.{concat}
use online_game.Processes.Routes.{user_groups, game_groups, admin_groups}
use online_game.ApiGateway.{Url, answers, proxies, panics, backends, route_api}
use online_game.ApiGateway.Routes.{
  path_of, local_url, Leads, EveryGroup, route_api-path, route_api-local,
}
use online_game.ApiGateway.Sockets.{
  Read, message, broken, End, client, backend, proxy_ws_dir, proxy_run, is_done,
}
use online_game.ApiGateway.Copies.{new_pair, proxy_run_lem}

abbrev getenv : String → String
getenv key = if key == "GAME_SERVICE_URL" then "http://game-service:8002" else ""

abbrev nothing_set : String → String
nothing_set key = ""

abbrev parse_url : String → Option Url
parse_url text = some (record { text = text; scheme = "http"; host = text })

abbrev atoi : String → Result String ℤ
atoi text = returns (pos 1)

abbrev games : String
games = "games"

-- The client's second message is read after the backend has hung up, and the third is not accepted.
abbrev exchange : List (End × Read ℕ)
exchange =
    (client, message 1 true)
    ∷ (backend, message 10 true)
    ∷ (backend, broken)
    ∷ (client, message 2 true)
    ∷ (client, message 3 false)
    ∷ []

route_api-path_example :
    (route_api getenv parse_url (path_of games "7/versions/latest")
      ≡ route_api getenv parse_url (String.◌++◌ "/" games))
    × (((games ≡ "")
          × (route_api getenv parse_url (path_of games "7/versions/latest")
              ≡ answers 400 "invalid path"))
        ⊎ (((games ≢ "")
              × (lookup games (backends getenv) ≡ none)
              × (route_api getenv parse_url (path_of games "7/versions/latest")
                  ≡ answers 404 (concat ("service not found: " ∷ games ∷ []))))
            ⊎ ((games ≢ "")
                × ((url : String) × (lookup games (backends getenv) ≡ some url)
                    × (((parse_url url ≡ none)
                          × (route_api getenv parse_url (path_of games "7/versions/latest")
                              ≡ panics))
                        ⊎ ((target : Url) × (parse_url url ≡ some target)
                            × (route_api getenv parse_url (path_of games "7/versions/latest")
                                ≡ proxies target)))))))
route_api-path_example = route_api-path getenv parse_url games "7/versions/latest" refl

route_api-local_example :
    EveryGroup
      (Leads nothing_set parse_url atoi (local_url atoi nothing_set "user-service"))
      user_groups
    × EveryGroup
        (Leads nothing_set parse_url atoi (local_url atoi nothing_set "game-service"))
        game_groups
    × EveryGroup
        (Leads nothing_set parse_url atoi (local_url atoi nothing_set "admin-service"))
        admin_groups
route_api-local_example =
    route_api-local nothing_set parse_url atoi nothing_set nothing_set nothing_set refl refl refl
      refl refl refl

proxy_run_lem_example :
    let p = proxy_run exchange new_pair in
    (p.from_client.written ≡ 1 ∷ 2 ∷ [])
    × (p.from_backend.written ≡ 10 ∷ [])
    × ((is_done p ≡ true)
        ⊎ ((p.from_client.written ≡ 1 ∷ 2 ∷ 3 ∷ []) × (p.from_backend.written ≡ 10 ∷ [])))
unfolding proxy_ws_dir
proxy_run_lem_example = proxy_run_lem exchange
