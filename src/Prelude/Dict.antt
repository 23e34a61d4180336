-- ===== src/Prelude/Dict.antt =====
-- Go's `map[K]V` and `sync.Map` as association lists. The order of the entries stands for Go's
-- unspecified iteration order; code whose result depends on it takes the choice as an argument.
use Prim.Native.Nat.{suc, ◌≤◌}
use mathlib.Core.Path.{◌≡◌, refl}
use mathlib.Core.Bool.{Bool, true, false}
use mathlib.Core.List.{List, [], ◌∷◌, map}
use mathlib.Core.Option.{Option, none, some}
use native.Mathlib.Omega.{arith}
use online_game.Prelude.Equality.{Comparable, ◌==◌}
use online_game.Prelude.Lists.{length}
use online_game.Prelude.Tests.{if◌then◌else◌}

abbrev pub Dict {ℓ} : Type ℓ → Type ℓ → Type ℓ
Dict K V = List (K × V)

abbrev pub is_some {ℓ} : {A : Type ℓ} → Option A → Bool
is_some none = false
is_some (some a) = true

abbrev pub keys {ℓ} : {K V : Type ℓ} → Dict K V → List K
keys = map (λ e. e.0)

abbrev pub values {ℓ} : {K V : Type ℓ} → Dict K V → List V
values = map (λ e. e.1)

module _ {ℓ} {K V : Type ℓ} ⦃e : Comparable K⦄ where
  unfoldable pub lookup : K → Dict K V → Option V
  lookup key ((k, found) ∷ rest) = if k == key then some found else lookup key rest
  lookup key [] = none

  -- `m[k] = v`
  unfoldable pub insert : K → V → Dict K V → Dict K V
  insert key new ((k, old) ∷ rest) =
      if k == key then (key, new) ∷ rest else (k, old) ∷ insert key new rest
  insert key new [] = (key, new) ∷ []

  -- `delete(m, k)`
  unfoldable pub delete : K → Dict K V → Dict K V
  delete k [] = []
  delete k ((j, w) ∷ m) = let rest = delete k m in if j == k then rest else (j, w) ∷ rest

  abbrev pub has_key : K → Dict K V → Bool
  has_key k m = is_some (lookup k m)

  -- What a Go map gives for nothing: no key stands twice.
  abbrev pub UniqueKeys : Dict K V → Type ℓ
  UniqueKeys [] = Unit {ℓ}
  UniqueKeys ((k, v) ∷ m) = (lookup k m ≡ none) × UniqueKeys m

  pub lookup-insert :
      (k asked : K) (new : V) (m : Dict K V)
      → lookup asked (insert k new m) ≡ (if k == asked then some new else lookup asked m)
  unfolding lookup insert
  lookup-insert k j v [] = refl
  lookup-insert k j v ((i, w) ∷ m) =
      ground (arith, e.decides k j, e.decides i k, e.decides i j, lookup-insert k j v m)

  pub lookup-delete :
      (k j : K) (m : Dict K V) → lookup j (delete k m) ≡ (if k == j then none else lookup j m)
  unfolding lookup delete
  lookup-delete k j [] = ground arith
  lookup-delete k j ((i, w) ∷ m) =
      ground (arith, e.decides k j, e.decides i k, e.decides i j, lookup-delete k j m)

  pub length-insert :
      (k : K) (v : V) (m : Dict K V)
      → length (insert k v m) ≡ (if has_key k m then length m else suc (length m))
  unfolding lookup insert
  length-insert k v [] = refl
  length-insert k v ((i, w) ∷ m) = ground (arith, length-insert k v m)

  pub delete_absent : (k : K) (m : Dict K V) → lookup k m ≡ none → delete k m ≡ m
  unfolding lookup delete
  delete_absent k [] h = refl
  delete_absent k ((i, w) ∷ m) h = ground (arith, delete_absent k m)

  pub length-delete :
      (k : K) (m : Dict K V)
      → UniqueKeys m
      → (if has_key k m then suc (length (delete k m)) else length (delete k m)) ≡ length m
  unfolding lookup delete
  length-delete k [] u = refl
  length-delete k ((i, w) ∷ m) u =
      ground (arith, e.decides i k, length-delete k m u.1, delete_absent k m)

  pub UniqueKeys-insert : (k : K) (v : V) (m : Dict K V) → UniqueKeys m → UniqueKeys (insert k v m)
  unfolding lookup insert
  UniqueKeys-insert k v [] u = (refl, tt)
  UniqueKeys-insert k v ((i, w) ∷ m) u =
      ground
        (arith, e.decides i k, e.decides k i, UniqueKeys-insert k v m u.1, lookup-insert k i v m)

  pub UniqueKeys-delete : (k : K) (m : Dict K V) → UniqueKeys m → UniqueKeys (delete k m)
  unfolding lookup delete
  UniqueKeys-delete k [] u = tt
  UniqueKeys-delete k ((i, w) ∷ m) u =
      ground (arith, UniqueKeys-delete k m u.1, lookup-delete k i m)

  pub length-delete-le : (k : K) (m : Dict K V) → length (delete k m) ≤ length m
  unfolding delete
  length-delete-le k [] = omega arith
  length-delete-le k ((j, w) ∷ m) = ground (arith, length-delete-le k m)
