-- ===== src/ApiGateway.antt =====
-- cmd/api-gateway/main.go: which service a request goes to. The environment is a function, as for the
-- configuration; `url.Parse` is a parameter, none where it returns an error.
pub mod Routes
pub mod Sockets
pub mod Copies
mod Tests
use Prim.Native.Char.{Char, code}
use Prim.Native.String
use Prim.Native.String.{String}
use text.Mathlib.Text.{starts_with}
use online_game.Prelude.{
  ℕ, Bool, true, false, Option, none, some, [], ◌∷◌, ◌&&◌, not, nat_beq, if◌then◌else◌,
}
use online_game.Prelude.Dict.{Dict, lookup}
use online_game.Prelude.Equality.{◌==◌, string_eq}
use online_game.Prelude.Text.{concat}

-- The parts of a `url.URL` that the gateway reads, and the text it was parsed from.
pub record Url : Type 0 where
  pub text : String
  pub scheme : String
  pub host : String

-- What becomes of a request: an answer with a status and an error, the reverse proxy of a backend, or
-- a panic.
pub data Routed : Type 0 where
  answers : ℕ → String → Routed
  proxies : Url → Routed
  panics : Routed

-- A file, or an answer with a status and an error.
pub data Page : Type 0 where
  file : String → Page
  refuses : ℕ → String → Page

abbrev pub is_slash : Char → Bool
is_slash c = nat_beq (code c) 47

-- `strings.TrimPrefix(path, "/")`.
unfoldable pub trim_slash : String → String
trim_slash String.[] = String.[]
trim_slash (String.◌∷◌ c s) = if is_slash c then s else String.◌∷◌ c s

-- The first part that `strings.SplitN(path, "/", 2)` gives.
unfoldable pub first_segment : String → String
first_segment String.[] = String.[]
first_segment (String.◌∷◌ c s) = if is_slash c then String.[] else String.◌∷◌ c (first_segment s)

-- The reverse proxy of a URL that is parsed; the proxy of none panics when it serves.
abbrev pub proxied : Option Url → Routed
proxied none = panics
proxied (some target) = proxies target

module _ (getenv : String → String) where
  -- `envOr`.
  unfoldable pub env_or : String → String → String
  env_or key fallback = let v = getenv key in if v == "" then fallback else v

  -- The backend of each service.
  unfoldable pub backends : Dict String String
  unfolding env_or
  backends =
      ("users", env_or "USER_SERVICE_URL" "http://localhost:8001")
      ∷ ("auth", env_or "USER_SERVICE_URL" "http://localhost:8001")
      ∷ ("games", env_or "GAME_SERVICE_URL" "http://localhost:8002")
      ∷ ("rooms", env_or "GAME_SERVICE_URL" "http://localhost:8002")
      ∷ ("admin", env_or "ADMIN_SERVICE_URL" "http://localhost:8003")
      ∷ []

  -- The handler of the paths that no route has.
  unfoldable no_route : String → Page
  unfolding env_or
  no_route path =
      if not (starts_with path "/api/")
        && (not (starts_with path "/ws") && not (starts_with path "/game-assets"))
      then file (concat (env_or "LOBBY_DIST_PATH" "./web/lobby/dist" ∷ "/index.html" ∷ []))
      else refuses 404 "not found"

  module _ (parse_url : String → Option Url) where
    abbrev pub route_service : String → Routed
    route_service name =
        if name == "" then answers 400 "invalid path" else elim (lookup name backends) [
          | none ↦ answers 404 (concat ("service not found: " ∷ name ∷ []))
          | some url ↦ proxied (parse_url url)
        ]

    -- The handler of `/api/v1/*path`, given the `path` parameter.
    unfoldable pub route_api : String → Routed
    unfolding trim_slash first_segment backends lookup
    route_api path = route_service (first_segment (trim_slash path))
