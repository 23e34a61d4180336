-- ===== src/Api/Pages.antt =====
-- pkg/api/response.go: `GetPagination` and `parseInt`.
use online_game.Prelude.{
  ℕ, ◌+◌, ◌-◌, ◌*◌, ◌%◌, ◌^◌, Bool, List, [], ◌∷◌, ◌&&◌, ◌||◌, ltb, leb, if◌then◌else◌,
}

-- A query parameter is its code points; a missing one is the empty text, as for `c.Query`.
abbrev pub Query : Type 0
Query = List ℕ

-- Go's `int` has 64 bits and wraps around: its bit pattern.
abbrev pub wrap : ℕ → ℕ
wrap n = n % 2 ^ 64

-- The loop of `parseInt` from the value `v`.
unfoldable pub parse_from : ℕ → Query → ℕ
parse_from v [] = v
parse_from v (c ∷ s) =
    let rest = parse_from (wrap (v * 10 + (c - b'0'))) s in
    if ltb c b'0' || ltb b'9' c then 0 else rest

unfoldable pub parse_int : Query → ℕ
unfolding parse_from
parse_int s = parse_from 0 s

-- `v > 0` on the bit pattern.
abbrev pub is_positive : ℕ → Bool
is_positive v = ltb 0 v && ltb v (2 ^ 63)

unfoldable pub page_of : Query → ℕ
unfolding parse_int
page_of [] = 1
page_of (c ∷ s) = let v = parse_int (c ∷ s) in if is_positive v then v else 1

unfoldable pub page_size_of : Query → ℕ
unfolding parse_int
page_size_of [] = 20
page_size_of (c ∷ s) = let v = parse_int (c ∷ s) in if is_positive v && leb v 100 then v else 20

-- The page and its size, from the parameters `page` and `page_size`.
unfoldable pub get_pagination : Query → Query → ℕ × ℕ
unfolding page_of page_size_of
get_pagination page page_size = (page_of page, page_size_of page_size)
