-- ===== src/Engine/Random.antt =====
-- pkg/engine/js_engine.go: `randomInt`, `shuffle` and `randomChoice`. `UnixNano` is below 2^63 until
-- the year 2262, so the tests for a negative remainder do not apply.
use online_game.Prelude.{
  ℕ, zero, suc, ◌+◌, ◌-◌, ◌%◌, ◌^◌, Bool, Option, none, some, List, [], ◌∷◌, length, get_elem?, set,
  ltb, leb, nat_beq, if◌then◌else◌,
}

-- Comparison of bit patterns as signed integers.
abbrev pub leb_int : ℕ → ℕ → Bool
leb_int a b = leb ((a + 2 ^ 63) % 2 ^ 64) ((b + 2 ^ 63) % 2 ^ 64)

-- `max - min + 1` of 64 bits.
abbrev pub span : ℕ → ℕ → ℕ
span min max = (max + 2 ^ 64 - min + 1) % 2 ^ 64

-- `t % d` for a divisor of 64 bits: that of its absolute value.
abbrev pub remainder : ℕ → ℕ → ℕ
remainder t d = if ltb d (2 ^ 63) then t % d else t % (2 ^ 64 - d)

-- `none`: the division by zero panics. `now` is `time.Now().UnixNano()`.
unfoldable pub random_int : ℕ → ℕ → ℕ → Option ℕ
random_int now min max =
    if leb_int max min
    then some min
    else if nat_beq (span min max) 0
    then none
    else some ((min + remainder now (span min max)) % 2 ^ 64)

module _ {ℓ} {A : Type ℓ} where
  abbrev both : List A → ℕ → ℕ → Option A → Option A → List A
  both xs i j (some a) (some b) = set (set xs i b) j a
  both xs i j none b = xs
  both xs i j (some a) none = xs

  -- `xs[i], xs[j] = xs[j], xs[i]`
  unfoldable pub swap : ℕ → ℕ → List A → List A
  swap i j xs = both xs i j (get_elem? xs i) (get_elem? xs j)

  -- The loop from `i` down to 1, with the time that it reads in each round.
  unfoldable pub shuffle_from : (ℕ → ℕ) → ℕ → List A → List A
  unfolding swap
  shuffle_from clock zero xs = xs
  shuffle_from clock (suc i) xs =
      shuffle_from clock i (swap (suc i) (clock (suc i) % (suc i + 1)) xs)

  unfoldable pub shuffle_list : (ℕ → ℕ) → List A → List A
  unfolding shuffle_from
  shuffle_list clock xs = shuffle_from clock (length xs - 1) xs

  unfoldable pub random_choice_of : ℕ → List A → Option A
  random_choice_of now [] = none
  random_choice_of now (x ∷ xs) = get_elem? (x ∷ xs) (now % length (x ∷ xs))
