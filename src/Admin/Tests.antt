-- ===== src/Admin/Tests.antt =====
-- Runs of the admin service on a small database and small files, and the theorems at inputs where
-- their hypotheses hold.
use online_game.Prelude.{
  ℕ, suc, String, ◌≡◌, ◌⊎◌, false, none, some, List, [], ◌∷◌, nat_beq, if◌then◌else◌,
}
use online_game.Prelude.Dict.{insert, delete}
use online_game.Prelude.Equality.{string_eq}
use online_game.Prelude.Int.{pos}
use online_game.Prelude.Result.{returns, fails}
use online_game.Prelude.Text.{concat}
use online_game.Prelude.Value.{nil}
use online_game.Api.Error.{AppError}
use online_game.Auth.{Claims, validate_token}
use online_game.User.Samples as Samples
use online_game.User.{record_not_found}
use online_game.GameService.{Game}
use online_game.GameService.Access.{stopped, passed, gated, token_of}
use online_game.Admin.{Manifest, read, ZipFile, Database, FileSystem, Libraries, Service}
use online_game.Admin.Catalog.{draft, get_game}
use online_game.Admin.Packages.{upload_package, upload_path}
use online_game.Admin.Uploads.{Extracted, upload_package_cases}
use online_game.Admin.Access.{admin_gate, user_client, admin_only}

abbrev Files : Type 0
Files = List (String × String)

abbrev file : String → String → ZipFile String
file name bytes = record { name = name; is_dir = false; content = read bytes false }

abbrev manifest : Manifest
manifest = record {
  name = "Blackjack";
  version = "1.0.0";
  game_code = "bj";
  game_type = "realtime";
  entry = "main.js";
  client_entry = "";
  min_players = pos 2;
  max_players = pos 4;
  config = nil;
}

abbrev small_db : Database ℕ
small_db = record {
  create_game = λ d g. (d, returns g);
  update_game = λ d id updates. (d, none);
  first_game = λ d id.
      if nat_beq id 7
      then returns (draft "bj" "Blackjack" "realtime" (pos 2) (pos 4))
      else fails record_not_found;
  delete_game = λ d id. (d, none);
  count_games = λ d. returns 1;
  find_games = λ d offset limit. returns [];
  create_version = λ d row. (suc d, returns row);
  first_version = λ d id version. fails record_not_found;
}

abbrev small_fs : FileSystem Files String
small_fs = record {
  mkdir_all = λ path files. files;
  write_file = λ path bytes files. (insert path bytes files, none);
  remove = λ path files. delete path files;
  stat = λ path files. (5, 6);
  open_zip = λ path files. returns (file "manifest.json" "m" ∷ file "main.js" "code" ∷ []);
}

abbrev libs : Libraries ℕ Files String
libs = record {
  db = small_db;
  fs = small_fs;
  paths = record {
    base = λ path. path;
    dir = λ path. path;
    join = λ parts. concat parts;
    temp_dir = "/tmp/";
  };
  unmarshal = λ bytes. returns manifest;
  number = λ n. "7";
  hex = λ n. "5";
}

abbrev quiet : Service ℕ Files
quiet = record { db = 0; files = []; storage_path = "data/" }

upload_package_cases_example :
    let r = upload_package libs 3000000 7 "1.0.0" "zip" quiet in
    let tmp = upload_path libs 3000000 7 in
    ((e : AppError) × (r.1 ≡ fails e) × (r.0.db ≡ 0))
    ⊎ ((g : Game) × (get_game libs 7 quiet ≡ returns g)
        × Extracted libs tmp 7 "1.0.0" (small_fs.write_file tmp "zip" []).0 quiet r)
upload_package_cases_example = upload_package_cases libs 3000000 7 "1.0.0" "zip" quiet

abbrev next : String → ℕ → ℕ × String
next name s = (suc s, name)

admin_only_example :
    let r =
      gated
        (admin_gate (some (user_client Samples.libs 10 (Samples.service []))) "Bearer k.ann")
        next
        3 in
    ((status : ℕ) × (text : String) × (r ≡ (3, stopped status text)))
    ⊎ ((claims : Claims) × (validate_token Samples.libs.jwt Samples.libs.redis Samples.libs.hash 10
            (Samples.service []).jwt_manager
            (token_of "Bearer k.ann")
          ≡ returns claims)
        × (claims.role ≡ "admin")
        × (r ≡ (4, passed claims.username)))
admin_only_example = admin_only Samples.libs 10 (Samples.service []) next "Bearer k.ann" 3
