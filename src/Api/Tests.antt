-- ===== src/Api/Tests.antt =====
-- Answers and pages on small inputs, and the theorems at such inputs.
use online_game.Prelude.{◌≤◌, ◌<◌, ◌^◌, ◌≡◌, refl, [], ◌∷◌}
use online_game.Api
use online_game.Api.Error.{plain, named, http_status, err_room_not_found, get_app_error}
use online_game.Api.Pages.{Query, get_pagination}
use online_game.Api.Laws

abbrev seven_teen : Query
seven_teen = b'1' ∷ b'7' ∷ []

abbrev ninety : Query
ninety = b'9' ∷ b'0' ∷ []

page_17 : get_pagination seven_teen ninety ≡ (17, 90)
unfolding get_pagination
page_17 = refl

first_page : get_pagination (b'-' ∷ b'1' ∷ []) (b'1' ∷ b'0' ∷ b'1' ∷ []) ≡ (1, 20)
unfolding get_pagination
first_page = refl

room_not_found_status : http_status (named err_room_not_found) ≡ 464
unfolding http_status named
room_not_found_status = refl

plain_error : (Api.error (plain "boom")).status ≡ 500
unfolding Api.error get_app_error named http_status
plain_error = refl

get_pagination-InRange_example :
    let p = get_pagination seven_teen ninety in (1 ≤ p.0) × (p.0 < 2 ^ 63) × (1 ≤ p.1) × (p.1 ≤ 100)
get_pagination-InRange_example = Laws.get_pagination-InRange seven_teen ninety
