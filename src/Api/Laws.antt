-- ===== src/Api/Laws.antt =====
-- Error codes and their statuses, the answers of the handlers, pages.
use online_game.Prelude.{
  ℕ, ◌+◌, ◌-◌, ◌*◌, ◌^◌, ◌≤◌, ◌<◌, ◌≡◌, refl, sym, ap, ◌∙◌, String, Bool, true, Option, none, some,
  List, [], ◌∷◌, ◌&&◌, leb, all, arith, if◌then◌else◌, nat_beq,
}
use online_game.Prelude.Value.{Value, nil}
use online_game.Api.Error.{
  app, http_status, with_data, with_message, get_app_error, Named, named, err_bad_request,
  err_unauthorized, err_forbidden, err_not_found, err_user_not_found, err_user_exists,
  err_invalid_password, err_invalid_token, err_game_not_found, err_game_not_ready,
  err_invalid_package, err_script_error, err_room_not_found, err_room_full, err_room_not_joinable,
  err_not_room_owner, err_game_running, err_internal_server, err_database_error, err_cache_error,
}
use online_game.Api.Pages.{
  Query, wrap, parse_from, parse_int, page_of, page_size_of, get_pagination,
}
use online_game.Api

abbrev all_named : List Named
all_named =
    err_bad_request ∷ err_unauthorized ∷ err_forbidden ∷ err_not_found ∷ err_user_not_found
    ∷ err_user_exists ∷ err_invalid_password ∷ err_invalid_token ∷ err_game_not_found
    ∷ err_game_not_ready ∷ err_invalid_package ∷ err_script_error ∷ err_room_not_found
    ∷ err_room_full ∷ err_room_not_joinable ∷ err_not_room_owner ∷ err_game_running
    ∷ err_internal_server ∷ err_database_error ∷ err_cache_error ∷ []

code_in : ℕ → List Named → Option Named
code_in code [] = none
code_in code (e ∷ rest) = if nat_beq (named e).code code then some e else code_in code rest

code_in-named : (e : Named) → code_in (named e).code all_named ≡ some e
unfolding named code_in
code_in-named err_bad_request = refl
code_in-named err_unauthorized = refl
code_in-named err_forbidden = refl
code_in-named err_not_found = refl
code_in-named err_user_not_found = refl
code_in-named err_user_exists = refl
code_in-named err_invalid_password = refl
code_in-named err_invalid_token = refl
code_in-named err_game_not_found = refl
code_in-named err_game_not_ready = refl
code_in-named err_invalid_package = refl
code_in-named err_script_error = refl
code_in-named err_room_not_found = refl
code_in-named err_room_full = refl
code_in-named err_room_not_joinable = refl
code_in-named err_not_room_owner = refl
code_in-named err_game_running = refl
code_in-named err_internal_server = refl
code_in-named err_database_error = refl
code_in-named err_cache_error = refl

some_inj : (a b : Named) → some a ≡ some b → a ≡ b
some_inj a b h = cc h

-- A client can tell the named errors apart by their codes.
named_codes_differ : (a b : Named) → (named a).code ≡ (named b).code → a ≡ b
named_codes_differ a b same =
    some_inj a b (sym (code_in-named a) ∙ ap (λ c. code_in c all_named) same ∙ code_in-named b)

-- The answer for a named error, whatever text and data it carries: the status is an HTTP error
-- status, the body has the code of the name and the text, and the data is not sent.
error-named :
    (e : Named) (text : String) (details : Value)
    → let answer = Api.error (app (with_message text (with_data details (named e)))) in
      (400 ≤ answer.status)
      × (answer.status < 600)
      × (answer.body.code ≡ (named e).code)
      × (answer.body.message ≡ text)
      × (answer.body.«data» ≡ nil)
unfolding Api.error named http_status with_data with_message get_app_error
error-named err_bad_request text details = ground arith
error-named err_unauthorized text details = ground arith
error-named err_forbidden text details = ground arith
error-named err_not_found text details = ground arith
error-named err_user_not_found text details = ground arith
error-named err_user_exists text details = ground arith
error-named err_invalid_password text details = ground arith
error-named err_invalid_token text details = ground arith
error-named err_game_not_found text details = ground arith
error-named err_game_not_ready text details = ground arith
error-named err_invalid_package text details = ground arith
error-named err_script_error text details = ground arith
error-named err_room_not_found text details = ground arith
error-named err_room_full text details = ground arith
error-named err_room_not_joinable text details = ground arith
error-named err_not_room_owner text details = ground arith
error-named err_game_running text details = ground arith
error-named err_internal_server text details = ground arith
error-named err_database_error text details = ground arith
error-named err_cache_error text details = ground arith

unfoldable pub is_digit : ℕ → Bool
is_digit c = leb b'0' c && leb c b'9'

-- The number that follows `v` when decimal digits are appended to it.
unfoldable pub decimal_from : ℕ → Query → ℕ
decimal_from v [] = v
decimal_from v (c ∷ s) = decimal_from (v * 10 + (c - b'0')) s

wrap_digit : (v d : ℕ) → wrap (wrap v * 10 + d) ≡ wrap (v * 10 + d)
wrap_digit v d = omega arith

wrap-decimal_from : (v : ℕ) (s : Query) → wrap (decimal_from (wrap v) s) ≡ wrap (decimal_from v s)
unfolding decimal_from
wrap-decimal_from v [] = omega arith
wrap-decimal_from v (c ∷ s) =
    sym (wrap-decimal_from (wrap v * 10 + (c - b'0')) s)
    ∙ ap (λ x. wrap (decimal_from x s)) (wrap_digit v (c - b'0'))
    ∙ wrap-decimal_from (v * 10 + (c - b'0')) s

parse_from_lem :
    (v : ℕ) (s : Query)
    → parse_from (wrap v) s ≡ (if all is_digit s then wrap (decimal_from v s) else 0)
unfolding parse_from decimal_from is_digit
parse_from_lem v [] = refl
parse_from_lem v (c ∷ s) = ground (
  arith,
  parse_from_lem (wrap v * 10 + (c - b'0')) s,
  wrap-decimal_from v (c ∷ s),
  wrap-decimal_from (wrap v * 10 + (c - b'0')) s,
)

-- A text of decimal digits is read as its value modulo 2^64, any other text as 0.
parse_int_lem : (s : Query) → parse_int s ≡ (if all is_digit s then wrap (decimal_from 0 s) else 0)
unfolding parse_int
parse_int_lem s = parse_from_lem 0 s

-- The page is at least 1 and fits a signed integer; the size of a page is between 1 and 100.
pub get_pagination-InRange :
    (page page_size : Query)
    → let p = get_pagination page page_size in (1 ≤ p.0) × (p.0 < 2 ^ 63) × (1 ≤ p.1) × (p.1 ≤ 100)
unfolding get_pagination page_of page_size_of
get_pagination-InRange [] [] = ground arith
get_pagination-InRange [] (c ∷ s) = ground arith
get_pagination-InRange (c ∷ s) [] = ground arith
get_pagination-InRange (c ∷ s) (d ∷ t) = ground arith

-- A page number below 2^63 and a size up to 100, both positive and written in decimal digits, are
-- taken as they are.
get_pagination-asked :
    (page page_size : Query)
    → all is_digit page ≡ true
    → all is_digit page_size ≡ true
    → 0 < decimal_from 0 page
    → decimal_from 0 page < 2 ^ 63
    → 0 < decimal_from 0 page_size
    → decimal_from 0 page_size ≤ 100
    → get_pagination page page_size ≡ (decimal_from 0 page, decimal_from 0 page_size)
unfolding get_pagination page_of page_size_of decimal_from
get_pagination-asked [] page_size = ground arith
get_pagination-asked (c ∷ s) [] = ground arith
get_pagination-asked (c ∷ s) (d ∷ t) = ground (arith, parse_int_lem (c ∷ s), parse_int_lem (d ∷ t))
