-- ===== src/ApiGateway/Routes.antt =====
-- Where the gateway of cmd/api-gateway/main.go sends requests.
use Prim.Native.String
use Prim.Native.String.{String}
use Prim.Native.String.append
use mathlib.Core.Path.{subst}
use online_game.Prelude.{
  List, ◌≡◌, ◌≢◌, refl, sym, ◌∙◌, ap, ◌⊎◌, inl, inr, Bool, false, ◌||◌, Option, none, some, [], ◌∷◌,
  arith, Option-cases, Bool-cases,
}
use online_game.Prelude.Dict.{lookup}
use online_game.Prelude.Equality.{◌==◌, string_eq}
use online_game.Prelude.Int.{ℤ}
use online_game.Prelude.Result.{Result}
use online_game.Prelude.Text.{concat}
use online_game.Config.{load, default_port}
use online_game.Config as Config
use online_game.Processes.Routes.{Group, user_groups, game_groups, admin_groups}
use online_game.ApiGateway.{
  Url, Routed, answers, proxies, panics, proxied, is_slash, trim_slash, first_segment, env_or,
  backends, route_service, route_api,
}

abbrev has_slash : String → Bool
has_slash String.[] = false
has_slash (String.◌∷◌ c s) = is_slash c || has_slash s

-- "/name/rest".
abbrev pub path_of : String → String → String
path_of name rest = String.◌++◌ "/" (String.◌++◌ name (String.◌++◌ "/" rest))

slash-append : (s : String) → String.◌++◌ "/" s ≡ String.◌∷◌ "/" s
slash-append s = append.cons "/" String.[] s ∙ ap (String.◌∷◌ "/") (append.nil s)

trim_slash-append : (s : String) → trim_slash (String.◌++◌ "/" s) ≡ s
unfolding trim_slash
trim_slash-append s = ap trim_slash (slash-append s)

first_segment-slash : (rest : String) → first_segment (String.◌++◌ "/" rest) ≡ String.[]
unfolding first_segment
first_segment-slash rest = ap first_segment (slash-append rest)

first_segment-append :
    (name rest : String)
    → has_slash name ≡ false
    → first_segment (String.◌++◌ name (String.◌++◌ "/" rest)) ≡ name
unfolding first_segment
first_segment-append String.[] rest plain =
    ap first_segment (append.nil (String.◌++◌ "/" rest)) ∙ first_segment-slash rest
first_segment-append (String.◌∷◌ c name) rest plain =
    ap first_segment (append.cons c name (String.◌++◌ "/" rest))
    ∙ ground (arith, first_segment-append name rest, plain)

first_segment_all : (name : String) → has_slash name ≡ false → first_segment name ≡ name
unfolding first_segment
first_segment_all String.[] plain = refl
first_segment_all (String.◌∷◌ c name) plain = ground (arith, first_segment_all name, plain)

module _ (getenv : String → String) (parse_url : String → Option Url) where
  -- Where the name of a service leads.
  abbrev Sent : String → Routed → Type 0
  Sent name r =
      ((name ≡ "") × (r ≡ answers 400 "invalid path"))
      ⊎ (((name ≢ "")
            × (lookup name (backends getenv) ≡ none)
            × (r ≡ answers 404 (concat ("service not found: " ∷ name ∷ []))))
          ⊎ ((name ≢ "")
              × ((url : String) × (lookup name (backends getenv) ≡ some url)
                  × (((parse_url url ≡ none) × (r ≡ panics))
                      ⊎ ((target : Url) × (parse_url url ≡ some target) × (r ≡ proxies target))))))

  route_service-Sent : (name : String) → Sent name (route_service getenv parse_url name)
  route_service-Sent name = elim (Bool-cases (name == "")) [
    | inl empty ↦ inl (ground (arith, empty, string_eq.decides name ""), ground (arith, empty))
    | inr named ↦
        let given : name ≢ "" = ground (arith, named, string_eq.decides name "") in
        elim (Option-cases (lookup name (backends getenv))) [
          | inl missing ↦ inr (inl (given, missing, ground (arith, named, missing)))
          | inr (url, there) ↦ elim (Option-cases (parse_url url)) [
            | inl bad ↦
                inr (inr (given, (url, there, inl (bad, ground (arith, named, there, bad)))))
            | inr (target, good) ↦
                inr (
                  inr (given, (url, there, inr (target, good, ground (arith, named, there, good)))))
          ]
        ]
  ]

  route_api-named :
      (name rest : String)
      → has_slash name ≡ false
      → (route_api getenv parse_url (path_of name rest) ≡ route_service getenv parse_url name)
        × (route_api getenv parse_url (String.◌++◌ "/" name) ≡ route_service getenv parse_url name)
  unfolding route_api
  route_api-named name rest plain =
      let service = route_service getenv parse_url in
      (
        ap (λ p. service (first_segment p))
              (trim_slash-append (String.◌++◌ name (String.◌++◌ "/" rest)))
            ∙ ap service (first_segment-append name rest plain),
        ap (λ p. service (first_segment p)) (trim_slash-append name)
            ∙ ap service (first_segment_all name plain),
      )

  -- A name without a slash in it alone decides: what follows it in the path does not. The request goes
  -- to the backend that the table has for the name, and panics if its URL is not one; it is answered
  -- 404 for a name that the table does not have, and 400 for no name.
  pub route_api-path :
      (name rest : String)
      → has_slash name ≡ false
      → (route_api getenv parse_url (path_of name rest)
          ≡ route_api getenv parse_url (String.◌++◌ "/" name))
        × Sent name (route_api getenv parse_url (path_of name rest))
  route_api-path name rest plain =
      let (long, short) = route_api-named name rest plain in
      (long ∙ sym short, subst (Sent name) (sym long) (route_service-Sent name))

-- The address of a service on the same host, as its own configuration has it.
unfoldable pub local_url : (String → Result String ℤ) → (String → String) → String → String
unfolding load
local_url atoi service_env service =
    concat ("http://localhost:" ∷ (load service_env atoi service).port ∷ [])

abbrev pub EveryGroup : (Group → Type 0) → List Group → Type 0
EveryGroup p [] = Unit {0}
EveryGroup p (g ∷ gs) = p g × EveryGroup p gs

module _ (gateway_env : String → String) (parse_url : String → Option Url)
    (atoi : String → Result String ℤ) where
  -- A group of routes whose paths go to the URL: the group's name alone, and the name with a slash
  -- and anything behind it.
  abbrev pub Leads : String → Group → Type 0
  Leads url g =
      ((rest : String)
        → route_api gateway_env parse_url (path_of g.name rest) ≡ proxied (parse_url url))
      × (route_api gateway_env parse_url (String.◌++◌ "/" g.name) ≡ proxied (parse_url url))

  -- Where no address is configured, and the services choose no port either, the gateway sends every
  -- path of each group of routes that a service registers, also the bare name of the group, to the
  -- port on which that service listens.
  pub route_api-local :
      (user_env game_env admin_env : String → String)
      → gateway_env "USER_SERVICE_URL" ≡ ""
      → gateway_env "GAME_SERVICE_URL" ≡ ""
      → gateway_env "ADMIN_SERVICE_URL" ≡ ""
      → user_env "PORT" ≡ ""
      → game_env "PORT" ≡ ""
      → admin_env "PORT" ≡ ""
      → EveryGroup (Leads (local_url atoi user_env "user-service")) user_groups
        × EveryGroup (Leads (local_url atoi game_env "game-service")) game_groups
        × EveryGroup (Leads (local_url atoi admin_env "admin-service")) admin_groups
  unfolding backends env_or Config.env_or load default_port lookup local_url user_groups game_groups
      admin_groups
  route_api-local user_env game_env admin_env no_user no_game no_admin users games admins =
      let to = route_api-named gateway_env parse_url in
      (
        (
          (
            λ rest. (to "auth" rest refl).0 ∙ rw (no_user, users) refl,
            (to "auth" "" refl).1 ∙ rw (no_user, users) refl,
          ),
          (
            (
              λ rest. (to "users" rest refl).0 ∙ rw (no_user, users) refl,
              (to "users" "" refl).1 ∙ rw (no_user, users) refl,
            ),
            tt,
          ),
        ),
        (
          (
            λ rest. (to "games" rest refl).0 ∙ rw (no_game, games) refl,
            (to "games" "" refl).1 ∙ rw (no_game, games) refl,
          ),
          (
            (
              λ rest. (to "rooms" rest refl).0 ∙ rw (no_game, games) refl,
              (to "rooms" "" refl).1 ∙ rw (no_game, games) refl,
            ),
            tt,
          ),
        ),
        (
          (
            λ rest. (to "admin" rest refl).0 ∙ rw (no_admin, admins) refl,
            (to "admin" "" refl).1 ∙ rw (no_admin, admins) refl,
          ),
          tt,
        ),
      )
