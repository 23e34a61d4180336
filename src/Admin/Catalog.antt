-- ===== src/Admin/Catalog.antt =====
-- internal/admin/handler.go: the games as the administrator keeps them.
use online_game.Prelude.{ℕ, ◌-◌, ◌*◌, String, Option, none, some, List, [], ◌∷◌}
use online_game.Prelude.Int.{ℤ}
use online_game.Prelude.Result.{Result, returns, fails}
use online_game.Prelude.Value.{Value, str, object}
use online_game.Api.Error.{AppError, named, with_message, err_game_not_found, err_not_found}
use online_game.GameService.{Game}
use online_game.GameService.Catalog.{counted, database_error}
use online_game.User.{QueryError}
use online_game.Admin.{Libraries, Service}

abbrev pub draft : String → String → String → ℤ → ℤ → Game
draft game_code game_name game_type min_players max_players = record {
  id = 0;
  game_code = game_code;
  game_name = game_name;
  game_type = game_type;
  description = "";
  game_icon = "";
  game_cover = "";
  min_players = min_players;
  max_players = max_players;
  status = "draft";
  sort_order = ℤ.pos 0;
  config = "";
  created_at = 0;
  updated_at = 0;
  deleted_at = none;
}

abbrev pub with_status : String → Value
with_status status = object (("status", str status) ∷ [])

-- `if err := s.db.First(&g, id).Error; err != nil`
abbrev found_game : Result QueryError Game → Result AppError Game
unfolding named
found_game (returns g) = returns g
found_game (fails e) = fails (named err_game_not_found)

unfoldable pub created_row : {A : Type 0} → Result String A → Result AppError A
unfolding database_error
created_row (returns a) = returns a
created_row (fails e) = fails (database_error e)

module _ {D F B : Type 0} (libs : Libraries D F B) where
  unfoldable pub get_game : ℕ → Service D F → Result AppError Game
  unfolding found_game
  get_game id s = found_game (libs.db.first_game s.db id)

  unfoldable pub create_game :
      String → String → String → ℤ → ℤ → Service D F → Service D F × Result AppError Game
  unfolding created_row
  create_game game_code game_name game_type min_players max_players s =
      let (db, row) =
        libs.db.create_game s.db (draft game_code game_name game_type min_players max_players) in
      (record s { db = db }, created_row row)

  -- The game as it is after an update, or the update's error.
  abbrev after_update : ℕ → Service D F → Option String → Service D F × Result AppError Game
  unfolding get_game database_error
  after_update id s none = (s, get_game id s)
  after_update id s (some e) = (s, fails (database_error e))

  unfoldable pub update_game : ℕ → Value → Service D F → Service D F × Result AppError Game
  unfolding after_update
  update_game id updates s =
      let (db, error) = libs.db.update_game s.db id updates in
      after_update id (record s { db = db }) error

  abbrev deleted : Service D F → Option String → Service D F × Option AppError
  unfolding database_error
  deleted s none = (s, none)
  deleted s (some e) = (s, some (database_error e))

  unfoldable pub delete_game : ℕ → Service D F → Service D F × Option AppError
  unfolding deleted
  delete_game id s =
      let (db, error) = libs.db.delete_game s.db id in deleted (record s { db = db }) error

  abbrev listed : ℕ → Result String (List Game) → Result AppError (List Game × ℕ)
  unfolding database_error
  listed total (returns games) = returns (games, total)
  listed total (fails e) = fails (database_error e)

  -- Pages start at 1.
  unfoldable pub list_games : ℕ → ℕ → Service D F → Result AppError (List Game × ℕ)
  unfolding listed
  list_games page page_size s =
      listed (counted (libs.db.count_games s.db))
        (libs.db.find_games s.db ((page - 1) * page_size) page_size)

  -- `PublishGame`: the version must be there, whatever its status is.
  unfoldable pub publish_game : ℕ → String → Service D F → Service D F × Result AppError Game
  unfolding update_game named with_message
  publish_game game_id version s = elim (libs.db.first_version s.db game_id version) [
    | fails e ↦ (s, fails (with_message "版本不存在" (named err_not_found)))
    | returns gv ↦ update_game game_id (with_status "published") s
  ]

  -- The error of the database is returned as it is.
  unfoldable pub unpublish_game : ℕ → Service D F → Service D F × Option String
  unpublish_game game_id s =
      let (db, error) = libs.db.update_game s.db game_id (with_status "offline") in
      (record s { db = db }, error)
