-- ===== src/GameService/Stale.antt =====
-- How long internal/game/service.go answers from the cache.
use online_game.Prelude.{ℕ, String, ◌≡◌, none, some, arith}
use online_game.Prelude.Result.{returns}
use online_game.GameService.{Game, Libraries, Service}
use online_game.GameService.Catalog.{get_game, through_cache, cached_value, store_value, game_key}

module _ {D C V B : Type 0} (libs : Libraries D C V) where
  -- A game that `GetGame` had to read from the database is answered again, from the cache alone,
  -- whatever has become of the row since, as long as the cache still has what it was given for an hour.
  pub get_game_stale :
      (id : ℕ) (game : Game) (bytes : String) (s : Service D C V B) (c : C) (later : D)
      → s.cache ≡ some c
      → cached_value libs.cache libs.games (game_key libs id) (some c) ≡ none
      → libs.db.first_game s.db id ≡ returns game
      → libs.games.marshal game ≡ some bytes
      → libs.games.unmarshal bytes ≡ some game
      → libs.cache.get_key
          (libs.cache.set_key c (game_key libs id) bytes 3600000000000)
          (game_key libs id)
        ≡ returns bytes
      → let first = get_game libs id s in
        let second = get_game libs id (record first.0 { db = later }) in
        (first.1 ≡ returns game) × (second.1 ≡ returns game) × (second.0.cache ≡ first.0.cache)
  unfolding get_game through_cache cached_value store_value game_key
  get_game_stale id game bytes s c later cache missed row written read keeps =
      ground (arith, cache, missed, row, written, read, keeps)
