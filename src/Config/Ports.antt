-- ===== src/Config/Ports.antt =====
-- The ports at which the services listen.
use online_game.Prelude.{
  String, true, [], ◌∷◌, ◌≡◌, refl, ◌⊎◌, inl, inr, Option, some, arith, ap, sym, ◌∙◌,
}
use online_game.Prelude.Dict.{Dict, lookup, has_key}
use online_game.Prelude.Equality.{string_eq}
use online_game.Prelude.Int.{ℤ}
use online_game.Prelude.Result.{Result}
use online_game.Config.{grpc_ports, default_port, default_grpc_port, env_or, load}

-- Which service listens at a port.
abbrev owners : Dict String String
owners =
    ("8001", "user-service")
    ∷ ("8002", "game-service")
    ∷ ("8003", "admin-service")
    ∷ ("9001", "user-service")
    ∷ ("9002", "game-service")
    ∷ ("9003", "admin-service")
    ∷ []

grpc_services :
    (a : String)
    → has_key a grpc_ports ≡ true
    → ("user-service" ≡ a) ⊎ ("game-service" ≡ a) ⊎ ("admin-service" ≡ a)
unfolding lookup
grpc_services a known = ground (
  arith,
  string_eq.decides "user-service" a,
  string_eq.decides "game-service" a,
  string_eq.decides "admin-service" a,
)

owners-default_port :
    (a : String)
    → has_key a grpc_ports ≡ true
    → (lookup (default_port a) owners ≡ some a) × (lookup (default_grpc_port a) owners ≡ some a)
unfolding lookup default_port default_grpc_port
owners-default_port a known = elim (grpc_services a known) [
  | inl user ↦ rw (sym user) (refl, refl)
  | inr (inl game) ↦ rw (sym game) (refl, refl)
  | inr (inr admin) ↦ rw (sym admin) (refl, refl)
]

some_same : {a b : String} → some a ≡ some b → a ≡ b
some_same h = cc h

env_or_unset :
    (getenv : String → String) (atoi : String → Result String ℤ) (key fallback : String)
    → getenv key ≡ ""
    → env_or getenv atoi key fallback ≡ fallback
unfolding env_or
env_or_unset getenv atoi key fallback unset = rw unset refl

abbrev owner : String → Option String
owner p = lookup p owners

-- With no ports set in the environment, two services that have a gRPC port share none of their
-- ports, neither for HTTP nor for gRPC nor across: if they do, they are the same service.
load-ports :
    (getenv : String → String) (atoi : String → Result String ℤ) (a b : String)
    → getenv "PORT" ≡ ""
    → getenv "GRPC_PORT" ≡ ""
    → has_key a grpc_ports ≡ true
    → has_key b grpc_ports ≡ true
    → ((load getenv atoi a).port ≡ (load getenv atoi b).port)
      ⊎ ((load getenv atoi a).grpc_port ≡ (load getenv atoi b).grpc_port)
      ⊎ ((load getenv atoi a).port ≡ (load getenv atoi b).grpc_port)
    → a ≡ b
unfolding load
load-ports getenv atoi a b port grpc known_a known_b shared =
    let own = owners-default_port a known_a in
    let its = owners-default_port b known_b in
    let http : (name : String) → (load getenv atoi name).port ≡ default_port name =
      λ name. env_or_unset getenv atoi "PORT" (default_port name) port in
    let rpc : (name : String) → (load getenv atoi name).grpc_port ≡ default_grpc_port name =
      λ name. env_or_unset getenv atoi "GRPC_PORT" (default_grpc_port name) grpc in
    some_same (elim shared [
      | inl same ↦ sym own.0 ∙ ap owner (sym (http a) ∙ same ∙ http b) ∙ its.0
      | inr (inl same) ↦ sym own.1 ∙ ap owner (sym (rpc a) ∙ same ∙ rpc b) ∙ its.1
      | inr (inr same) ↦ sym own.0 ∙ ap owner (sym (http a) ∙ same ∙ rpc b) ∙ its.1
    ])
