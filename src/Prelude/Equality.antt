-- ===== src/Prelude/Equality.antt =====
-- Boolean equality as an interface: `==` on numbers and on texts.
use Prim.Native.Nat.{ℕ}
use Prim.Native.String.{String}
use text.Mathlib.TextEquality.{eq_iff}
use mathlib.Core.Bool.{Bool, true}
use mathlib.Core.Logic.{◌↔◌}
use mathlib.Core.Path.{◌≡◌}
use online_game.Prelude.Tests.{nat_beq, nat_beq_iff}

-- Go's comparable types, as far as maps and tests need them.
pub record Comparable {ℓ} (K : Type ℓ) : Type ℓ where
  pub same : K → K → Bool
  pub decides : (x y : K) → (same x y ≡ true) ↔ (x ≡ y)

instance abbrev pub string_eq : Comparable String
string_eq = record { same = text.Mathlib.Text.◌==◌; decides = eq_iff }

instance abbrev pub nat_eq : Comparable ℕ
nat_eq = record { same = nat_beq; decides = nat_beq_iff }

module _ {ℓ} {K : Type ℓ} ⦃cmp : Comparable K⦄ where
  infix 50 ◌==◌
  abbrev pub ◌==◌ : K → K → Bool
  x == y = cmp.same x y

  pub beq_refl : (x : K) → (x == x) ≡ true
  beq_refl x = (cmp.decides x x).1 (mathlib.Core.Path.refl)
