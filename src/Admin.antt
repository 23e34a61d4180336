-- ===== src/Admin.antt =====
-- internal/admin/handler.go: what the admin service is made of. The database, the file system, the
-- reading of zip files and of JSON, and the functions on paths are parameters. `B` are bytes, `D` the
-- contents of the database and `F` those of the file system.
pub mod Catalog
pub mod Packages
pub mod Http
pub mod Access
pub mod Uploads
mod Tests
use online_game.Prelude.{ℕ, String, Bool, Option, List}
use online_game.Prelude.Int.{ℤ}
use online_game.Prelude.Result.{Result}
use online_game.Prelude.Value.{Value}
use online_game.User.{QueryError}
use online_game.GameService.{Game, GameVersion}

pub record Manifest : Type 0 where
  pub name : String
  pub version : String
  pub game_code : String
  pub game_type : String
  pub entry : String
  pub client_entry : String
  pub min_players : ℤ
  pub max_players : ℤ
  pub config : Value

-- What an entry of a zip file gives when it is opened and read: an error of `Open`, or the bytes that
-- were read and whether reading failed.
pub data Content (B : Type 0) : Type 0 where
  unopened : Content B
  read : B → Bool → Content B

pub record ZipFile (B : Type 0) : Type 0 where
  pub name : String
  pub is_dir : Bool
  pub content : Content B

-- A map of updates is an object.
pub record Database (D : Type 0) : Type 0 where
  pub create_game : D → Game → D × Result String Game
  pub update_game : D → ℕ → Value → D × Option String
  pub first_game : D → ℕ → Result QueryError Game
  pub delete_game : D → ℕ → D × Option String
  pub count_games : D → Result String ℕ
  pub find_games : D → ℕ → ℕ → Result String (List Game)
  pub create_version : D → GameVersion → D × Result String GameVersion
  pub first_version : D → ℕ → String → Result QueryError GameVersion

-- `stat` gives the time of the last change and the size.
pub record FileSystem (F B : Type 0) : Type 0 where
  pub mkdir_all : String → F → F
  pub write_file : String → B → F → F × Option String
  pub remove : String → F → F
  pub stat : String → F → ℕ × ℕ
  pub open_zip : String → F → Result String (List (ZipFile B))

-- filepath.Base, filepath.Dir and filepath.Join, and os.TempDir.
pub record Paths : Type 0 where
  pub base : String → String
  pub dir : String → String
  pub join : List String → String
  pub temp_dir : String

-- `number` is `%d` and `hex` is `%x`.
pub record Libraries (D F B : Type 0) : Type 0 where
  pub db : Database D
  pub fs : FileSystem F B
  pub paths : Paths
  pub unmarshal : B → Result String Manifest
  pub number : ℕ → String
  pub hex : ℕ → String

pub record Service (D F : Type 0) : Type 0 where
  pub db : D
  pub files : F
  pub storage_path : String
