-- ===== src/GameService/Catalog.antt =====
-- internal/game/service.go: games and their versions, read through the cache.
use online_game.Prelude.{ℕ, ◌-◌, ◌*◌, String, Option, none, some, List, [], ◌∷◌, if◌then◌else◌}
use online_game.Prelude.Equality.{◌==◌, string_eq}
use online_game.Prelude.Result.{Result, returns, fails}
use online_game.Prelude.Text.{concat}
use online_game.Prelude.Value.{str}
use online_game.Api.Error.{
  AppError, named, with_data, with_message, err_database_error, err_game_not_found, err_not_found,
}
use online_game.User.{QueryError, record_not_found, db_error}
use online_game.GameService.{
  Game, GameVersion, GameRoom, GameListQuery, GameFilter, Cache, Codec, Libraries, Service,
}

-- The variable that `Count` writes to.
abbrev pub counted : Result String ℕ → ℕ
counted (returns n) = n
counted (fails e) = 0

unfoldable pub database_error : String → AppError
unfolding with_data named
database_error e = with_data (str e) (named err_database_error)

-- The answer to a failed look-up: that the thing is missing, or that the database failed.
unfoldable pub missing_or : AppError → QueryError → AppError
unfolding database_error
missing_or missing record_not_found = missing
missing_or missing (db_error e) = database_error e

-- With no status asked for, only what is published.
unfoldable pub filter_of : GameListQuery → GameFilter
filter_of query = record {
  status = if query.status == "" then "published" else query.status;
  game_type = query.game_type;
  name_like = if query.search == "" then "" else concat ("%" ∷ query.search ∷ "%" ∷ []);
}

abbrev listed : {T : Type 0} → ℕ → Result String (List T) → Result AppError (List T × ℕ)
unfolding database_error
listed total (returns rows) = returns (rows, total)
listed total (fails e) = fails (database_error e)

module _ {C T : Type 0} (cache : Cache C) (codec : Codec T) where
  abbrev decoded : Result String String → Option T
  decoded (returns text) = codec.unmarshal text
  decoded (fails e) = none

  -- What the cache has under a key: none without a cache, on an error and for another text.
  unfoldable pub cached_value : String → Option C → Option T
  cached_value key none = none
  cached_value key (some c) = decoded (cache.get_key c key)

  abbrev store_text : String → ℕ → Option String → C → C
  store_text key ttl none c = c
  store_text key ttl (some text) c = cache.set_key c key text ttl

  unfoldable pub store_value : String → ℕ → T → Option C → Option C
  store_value key ttl v none = none
  store_value key ttl v (some c) = some (store_text key ttl (codec.marshal v) c)

  abbrev read_value :
      String → ℕ → AppError → Option C → Result QueryError T → Option C × Result AppError T
  unfolding store_value missing_or
  read_value key ttl missing c (fails e) = (c, fails (missing_or missing e))
  read_value key ttl missing c (returns v) = (store_value key ttl v c, returns v)

  -- A row from the cache, or else from the database and then into the cache.
  unfoldable pub through_cache :
      String → ℕ → AppError → Result QueryError T → Option C → Option C × Result AppError T
  unfolding cached_value store_value missing_or
  through_cache key ttl missing row c = elim (cached_value key c) [
    | some v ↦ (c, returns v)
    | none ↦ read_value key ttl missing c row
  ]

module _ {D C V : Type 0} (libs : Libraries D C V) where
  -- The keys of the cache; `number` is `%d`.
  unfoldable pub game_key : ℕ → String
  game_key id = concat ("game:" ∷ libs.number id ∷ [])

  unfoldable pub version_key : ℕ → String
  version_key game_id = concat ("game_version:" ∷ libs.number game_id ∷ [])

  unfoldable pub forget_game : ℕ → Option C → Option C
  unfolding game_key version_key
  forget_game id none = none
  forget_game id (some c) = some (libs.cache.del (libs.cache.del c (game_key id)) (version_key id))

module _ {D C V B : Type 0} (libs : Libraries D C V) where
  -- A page below 1 gives a negative offset in the source, which the database layer ignores.
  unfoldable pub list_games :
      GameListQuery → ℕ → ℕ → Service D C V B → Result AppError (List Game × ℕ)
  unfolding filter_of database_error
  list_games query page page_size s =
      listed (counted (libs.db.count_games s.db (filter_of query)))
        (libs.db.find_games s.db (filter_of query) ((page - 1) * page_size) page_size)

  abbrev with_cache :
      {T : Type 0}
      → Service D C V B
      → Option C × Result AppError T
      → Service D C V B × Result AppError T
  with_cache s (c, r) = (record s { cache = c }, r)

  unfoldable pub invalidate_game_cache : ℕ → Service D C V B → Service D C V B
  unfolding forget_game
  invalidate_game_cache id s = record s { cache = forget_game libs id s.cache }

  -- One hour, in nanoseconds.
  unfoldable pub get_game : ℕ → Service D C V B → Service D C V B × Result AppError Game
  unfolding through_cache named game_key
  get_game id s = with_cache s (
      through_cache libs.cache libs.games (game_key libs id) 3600000000000
        (named err_game_not_found) (libs.db.first_game s.db id) s.cache)

  unfoldable pub get_latest_version :
      ℕ → Service D C V B → Service D C V B × Result AppError GameVersion
  unfolding through_cache named with_message version_key
  get_latest_version game_id s = with_cache s (
      through_cache libs.cache libs.versions (version_key libs game_id) 1800000000000
        (with_message "没有可用版本" (named err_not_found)) (libs.db.first_active_version s.db game_id)
        s.cache)

  unfoldable pub get_rooms : ℕ → ℕ → ℕ → Service D C V B → Result AppError (List GameRoom × ℕ)
  unfolding database_error
  get_rooms game_id page page_size s =
      listed (counted (libs.db.count_open_rooms s.db game_id))
        (libs.db.find_open_rooms s.db game_id ((page - 1) * page_size) page_size)
