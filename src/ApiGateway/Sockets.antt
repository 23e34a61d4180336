-- ===== src/ApiGateway/Sockets.antt =====
-- `wsProxy` and `proxyWSDir` of cmd/api-gateway/main.go: a WebSocket connection of a client is joined
-- to one of the game service, and two goroutines copy messages, one in each direction.
use online_game.Prelude.{
  ℕ, String, Bool, true, false, ◌||◌, Option, none, some, List, [], ◌∷◌, ◌++◌, if◌then◌else◌,
}
use online_game.Prelude.Equality.{◌==◌, string_eq}
use online_game.Prelude.Text.{concat}
use online_game.ApiGateway.{Url}

-- The address that the proxy dials.
unfoldable backend_ws_url : Url → String → String → String
backend_ws_url target path raw_query =
    let scheme = if target.scheme == "https" then "wss" else "ws" in
    let url = concat (scheme ∷ "://" ∷ target.host ∷ path ∷ []) in
    if raw_query == "" then url else concat (url ∷ "?" ∷ raw_query ∷ [])

-- How a request to `/ws` goes: it panics for a backend whose URL is not one, is answered with a status
-- and an error, is left as the upgrader has answered it, or is joined to the address.
pub data Joined : Type 0 where
  panics : Joined
  answers : ℕ → String → Joined
  left_alone : Joined
  joins : String → Joined

-- `dials` and `upgrades` tell whether the dial of an address and the upgrade of the client succeed.
unfoldable ws_proxy :
    (String → Option Url) → String → (String → Bool) → Bool → String → String → Joined
unfolding backend_ws_url
ws_proxy parse_url backend dials upgrades path raw_query = elim (parse_url backend) [
  | none ↦ panics
  | some target ↦
      let url = backend_ws_url target path raw_query in
      if dials url
      then if upgrades then joins url else left_alone
      else answers 502 "failed to connect to game service"
]

-- What a direction meets: a message that is read, and whether its write succeeds, or an error of the
-- read.
pub data Read (M : Type 0) : Type 0 where
  message : M → Bool → Read M
  broken : Read M

module _ {M : Type 0} where
  -- The loop of `proxyWSDir`: what it has written to `dst`.
  unfoldable pub proxy_ws_dir : List (Read M) → List M
  proxy_ws_dir [] = []
  proxy_ws_dir (message m true ∷ reads) = m ∷ proxy_ws_dir reads
  proxy_ws_dir (message m false ∷ reads) = []
  proxy_ws_dir (broken ∷ reads) = []

-- The two ends, and a direction named by the end it reads from.
pub data End : Type 0 where
  client backend : End

pub record Direction (M : Type 0) : Type 0 where
  pub written : List M
  pub ended : Bool

pub record Pair (M : Type 0) : Type 0 where
  pub from_client : Direction M
  pub from_backend : Direction M

module _ {M : Type 0} where
  -- A round of a goroutine's loop; a goroutine that has ended makes none.
  unfoldable pub copy_round : Read M → Direction M → Direction M
  copy_round (message m true) d = if d.ended then d else record d { written = d.written ++ m ∷ [] }
  copy_round (message m false) d = record d { ended = true }
  copy_round broken d = record d { ended = true }

  -- The two goroutines in any order.
  unfoldable pub proxy_step : End × Read M → Pair M → Pair M
  unfolding copy_round
  proxy_step (client, r) p = record p { from_client = copy_round r p.from_client }
  proxy_step (backend, r) p = record p { from_backend = copy_round r p.from_backend }

  unfoldable pub proxy_run : List (End × Read M) → Pair M → Pair M
  unfolding proxy_step
  proxy_run [] p = p
  proxy_run (e ∷ es) p = proxy_run es (proxy_step e p)

  -- `<-done`: the handler returns, and closes both connections, when either direction has ended.
  unfoldable pub is_done : Pair M → Bool
  is_done p = p.from_client.ended || p.from_backend.ended
