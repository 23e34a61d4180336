-- ===== src/Engine/Shuffle.antt =====
-- The random utilities: what they can return, whatever the clock shows.
use mathlib.Core.List.{Perm, Mem}
use mathlib.Core.List
use mathlib.Core.List.Perm
use native.Mathlib.Nat.{mod-lt, mod-eq_of_lt}
use online_game.Prelude.{
  ℕ, zero, suc, ◌+◌, ◌-◌, ◌%◌, ◌^◌, ◌<◌, ◌≡◌, refl, inl, inr, true, false, ◌↔◌, some, List, [], ◌∷◌,
  length, get_elem?, set, arith, Option-cases,
}
use online_game.Engine.Random.{
  leb_int, span, random_int, swap, shuffle_from, shuffle_list, random_choice_of,
}

module _ {ℓ} {A : Type ℓ} where
  some_injective : {x y : A} → some x ≡ some y → x ≡ y
  some_injective h = cc h

  -- A write trades the old element for the new one.
  set-Perm :
      (xs : List A) (i : ℕ) (x y : A) → get_elem? xs i ≡ some x → Perm (x ∷ set xs i y) (y ∷ xs)
  set-Perm [] i x y h = cc
  set-Perm (z ∷ xs) zero x y h = let e : z ≡ x = some_injective h in rw e (Perm.swap y x xs)
  set-Perm (z ∷ xs) (suc i) x y h =
      Perm.trans (Perm.swap z x (set xs i y))
        (Perm.trans (Perm.cons z (set-Perm xs i x y h)) (Perm.swap y z xs))

  get_elem?-set :
      (xs : List A) (i j : ℕ) (a b : A)
      → get_elem? xs i ≡ some a
      → get_elem? xs j ≡ some b
      → get_elem? (set xs i b) j ≡ some b
  get_elem?-set [] i j a b hi hj = hj
  get_elem?-set (z ∷ xs) zero zero a b hi hj = refl
  get_elem?-set (z ∷ xs) zero (suc j) a b hi hj = hj
  get_elem?-set (z ∷ xs) (suc i) zero a b hi hj = hj
  get_elem?-set (z ∷ xs) (suc i) (suc j) a b hi hj = get_elem?-set xs i j a b hi hj

  swap-Perm : (i j : ℕ) (xs : List A) → Perm (swap i j xs) xs
  unfolding swap
  swap-Perm i j xs = elim (Option-cases (get_elem? xs i)) [
    | inl out ↦ rw out (Perm.refl xs)
    | inr (a, hi) ↦ elim (Option-cases (get_elem? xs j)) [
      | inl out ↦ rw (hi, out) (Perm.refl xs)
      | inr (b, hj) ↦
          rw (hi, hj)
            ((List.perm-cons b).0 (
              Perm.trans (set-Perm (set xs i b) j b a (get_elem?-set xs i j a b hi hj))
                (set-Perm xs i a b hi)))
    ]
  ]

  shuffle_from-Perm : (clock : ℕ → ℕ) (i : ℕ) (xs : List A) → Perm (shuffle_from clock i xs) xs
  unfolding shuffle_from
  shuffle_from-Perm clock zero xs = Perm.refl xs
  shuffle_from-Perm clock (suc i) xs =
      Perm.trans (shuffle_from-Perm clock i (swap (suc i) (clock (suc i) % (suc i + 1)) xs))
        (swap-Perm (suc i) (clock (suc i) % (suc i + 1)) xs)

  -- Shuffling keeps the elements, each as often as before, whatever the clock shows.
  pub shuffle_list-Perm : (clock : ℕ → ℕ) (xs : List A) → Perm (shuffle_list clock xs) xs
  unfolding shuffle_list
  shuffle_list-Perm clock xs = shuffle_from-Perm clock (length xs - 1) xs

  get_elem?-lt :
      (xs : List A) (i : ℕ) → i < length xs → (x : A) × (get_elem? xs i ≡ some x) × Mem x xs
  get_elem?-lt [] i h = absurd (omega arith)
  get_elem?-lt (x ∷ xs) zero h = (x, refl, List.mem-cons_self)
  get_elem?-lt (x ∷ xs) (suc i) h =
      let (y, e, m) = get_elem?-lt xs i (omega arith) in (y, e, List.mem-cons_of_mem x m)

  -- A choice from an array with elements is one of them.
  random_choice_of-Mem :
      (now : ℕ) (x : A) (xs : List A)
      → (y : A) × (random_choice_of now (x ∷ xs) ≡ some y) × Mem y (x ∷ xs)
  unfolding random_choice_of
  random_choice_of-Mem now x xs =
      get_elem?-lt (x ∷ xs) (now % length (x ∷ xs))
        (omega (arith, mod-lt now {m = suc (length xs)}))

module _ (min max : ℕ) where
  -- A number from the range, and its distance from the bottom.
  in_range :
      (n q : ℕ)
      → min < 2 ^ 64
      → max < 2 ^ 64
      → leb_int max min ≡ false
      → q < span min max
      → n ≡ (min + q) % 2 ^ 64
      → (leb_int min n ≡ true) × (leb_int n max ≡ true)
  in_range n q hmin hmax below small e = ground arith

  distance :
      (n : ℕ)
      → min < 2 ^ 64
      → max < 2 ^ 64
      → n < 2 ^ 64
      → leb_int max min ≡ false
      → 0 < span min max
      → span min max < 2 ^ 63
      → leb_int min n ≡ true
      → leb_int n max ≡ true
      → ((n + 2 ^ 64 - min) % 2 ^ 64 < span min max)
        × ((min + (n + 2 ^ 64 - min) % 2 ^ 64) % 2 ^ 64 ≡ n)
  distance n hmin hmax hn below some_apart near low high = ground arith

-- Between bounds of which the first is below the second, and fewer than 2^63 apart, the numbers that
-- can come are exactly those from the first bound to the second, as signed integers.
pub random_int_lem :
    (min max n : ℕ)
    → min < 2 ^ 64
    → max < 2 ^ 64
    → n < 2 ^ 64
    → leb_int max min ≡ false
    → 0 < span min max
    → span min max < 2 ^ 63
    → ((now : ℕ) × (random_int now min max ≡ some n))
      ↔ ((leb_int min n ≡ true) × (leb_int n max ≡ true))
unfolding random_int
random_int_lem min max n hmin hmax hn below apart near = (
  λ (now, e).
      in_range min max n (now % span min max) hmin hmax below (mod-lt now apart) (ground arith),
  λ (low, high).
      let d = distance min max n hmin hmax hn below apart near low high in
      ((n + 2 ^ 64 - min) % 2 ^ 64, ground (arith, mod-eq_of_lt d.0, d.1)),
)
