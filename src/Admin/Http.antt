-- ===== src/Admin/Http.antt =====
-- internal/admin/handler.go: the HTTP handlers. The binding of a request (gin) gives the request or
-- the text of its error; `id` is the text of the parameter and `parse_id` reads it.
use online_game.Prelude.{ℕ, String, Option, none, some, List, if◌then◌else◌}
use online_game.Prelude.Equality.{◌==◌, string_eq}
use online_game.Prelude.Int.{ℤ, pos, leb_ℤ}
use online_game.Prelude.Result.{Result, returns, fails}
use online_game.Prelude.Value.{Value, nil, str}
use online_game.Api.{Answer, error, created, success, success_with_message, paginated}
use online_game.Api.Error.{
  AppError, app, plain, named, with_data, with_message, err_bad_request, err_internal_server,
}
use online_game.Api.Pages.{Query, get_pagination}
use online_game.GameService.{Game, GameVersion}
use online_game.Admin.{Libraries, Service}
use online_game.Admin.Catalog as Catalog
use online_game.Admin.Packages.{upload_package}

pub record CreateGameRequest : Type 0 where
  pub game_code : String
  pub game_name : String
  pub game_type : String
  pub min_players : ℤ
  pub max_players : ℤ

-- How games and versions are written as JSON, and `fmt.Sscanf` with `%d` into a zero.
pub record Encoding : Type 0 where
  pub game : Game → Value
  pub games : List Game → Value
  pub version : GameVersion → Value
  pub parse_id : String → ℕ

-- The number that was asked for, or another where it is not positive.
abbrev pub positive_or : ℤ → ℤ → ℤ
positive_or default n = if leb_ℤ n (pos 0) then default else n

abbrev pub bad_request : String → Answer Value
unfolding with_data named error
bad_request e = error (app (with_data (str e) (named err_bad_request)))

abbrev done_or :
    {S E : Type 0} → (E → Answer Value) → Answer Value → S × Option E → S × Answer Value
done_or refuse done (s, none) = (s, done)
done_or refuse done (s, some e) = (s, refuse e)

module _ {D F B : Type 0} (libs : Libraries D F B) (json : Encoding) where
  abbrev answered :
      {A : Type 0}
      → (A → Answer Value)
      → Service D F × Result AppError A
      → Service D F × Answer Value
  unfolding error
  answered f (s, returns a) = (s, f a)
  answered f (s, fails e) = (s, error (app e))

  unfoldable pub handle_create_game :
      Result String CreateGameRequest → Service D F → Service D F × Answer Value
  unfolding answered bad_request created Catalog.create_game
  handle_create_game (fails e) s = (s, bad_request e)
  handle_create_game (returns req) s =
      answered (λ g. created (json.game g))
        (Catalog.create_game libs req.game_code req.game_name req.game_type
          (positive_or (pos 2) req.min_players) (positive_or (pos 10) req.max_players) s)

  unfoldable pub handle_list_games : Query → Query → Service D F → Service D F × Answer Value
  unfolding answered get_pagination paginated Catalog.list_games
  handle_list_games page page_size s =
      let (p, size) = get_pagination page page_size in
      answered (λ found. paginated (json.games found.0) (pos found.1) p size)
        (s, Catalog.list_games libs p size s)

  unfoldable pub handle_get_game : String → Service D F → Service D F × Answer Value
  unfolding answered success Catalog.get_game
  handle_get_game id s =
      answered (λ g. success (json.game g)) (s, Catalog.get_game libs (json.parse_id id) s)

  unfoldable pub handle_update_game :
      String → Result String Value → Service D F → Service D F × Answer Value
  unfolding answered success error named Catalog.update_game
  handle_update_game id (fails e) s = (s, error (app (named err_bad_request)))
  handle_update_game id (returns updates) s =
      answered (λ g. success (json.game g)) (Catalog.update_game libs (json.parse_id id) updates s)

  unfoldable pub handle_delete_game : String → Service D F → Service D F × Answer Value
  unfolding error success_with_message Catalog.delete_game
  handle_delete_game id s =
      done_or (λ e. error (app e)) (success_with_message "删除成功" nil)
        (Catalog.delete_game libs (json.parse_id id) s)

  -- The file of the form: none, or what reading it gives.
  unfoldable pub handle_upload_package :
      ℕ → String → String → Option (Result String B) → Service D F → Service D F × Answer Value
  unfolding answered created error named with_message upload_package
  handle_upload_package now id version none s =
      (s, error (app (with_message "请上传游戏包文件" (named err_bad_request))))
  handle_upload_package now id version (some (fails e)) s =
      (s, error (app (named err_internal_server)))
  handle_upload_package now id version (some (returns bytes)) s =
      answered (λ gv. created (json.version gv))
        (upload_package libs now (json.parse_id id) (if version == "" then "1.0.0" else version)
          bytes s)

  -- An error of the binding is ignored: the version is then empty.
  unfoldable pub handle_publish_game : String → String → Service D F → Service D F × Answer Value
  unfolding answered success Catalog.publish_game
  handle_publish_game id version s =
      answered (λ g. success (json.game g)) (Catalog.publish_game libs (json.parse_id id) version s)

  unfoldable pub handle_unpublish_game : String → Service D F → Service D F × Answer Value
  unfolding error success_with_message Catalog.unpublish_game
  handle_unpublish_game id s =
      done_or (λ e. error (plain e)) (success_with_message "已下线" nil)
        (Catalog.unpublish_game libs (json.parse_id id) s)
