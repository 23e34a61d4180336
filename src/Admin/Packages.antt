-- ===== src/Admin/Packages.antt =====
-- internal/admin/handler.go: the upload of a game package.
use online_game.Prelude.{
  ℕ, ◌/◌, String, Bool, true, false, ◌||◌, not, none, some, List, [], ◌∷◌, if◌then◌else◌,
}
use online_game.Prelude.Equality.{◌==◌, string_eq}
use online_game.Prelude.Int.{pos}
use online_game.Prelude.Result.{Result, returns, fails}
use online_game.Prelude.Text.{concat}
use online_game.Prelude.Value.{str}
use online_game.Api.Error.{
  AppError, named, with_data, with_message, err_internal_server, err_invalid_package,
}
use online_game.GameService.{GameVersion}
use online_game.Admin.{Manifest, Content, unopened, read, ZipFile, Libraries, Service}
use online_game.Admin.Catalog.{get_game, created_row}

-- `ErrInvalidPackage` with data, and with a message.
abbrev bad_package : {A : Type 0} → String → Result AppError A
unfolding named with_data
bad_package details = fails (with_data (str details) (named err_invalid_package))

abbrev unfit_package : {A : Type 0} → String → Result AppError A
unfolding named with_message
unfit_package message = fails (with_message message (named err_invalid_package))

abbrev pub lacks_field : Manifest → Bool
lacks_field m = m.name == "" || m.version == "" || m.entry == ""

module _ {B : Type 0} where
  abbrev manifest_bytes : Content B → Result AppError B
  unfolding bad_package
  manifest_bytes unopened = bad_package "无法读取manifest.json"
  manifest_bytes (read bytes failed) =
      if failed then bad_package "manifest.json读取失败" else returns bytes

  -- The first entry that is called manifest.json, in whatever directory.
  unfoldable pub manifest_data : (String → String) → List (ZipFile B) → Result AppError B
  unfolding manifest_bytes unfit_package
  manifest_data base [] = unfit_package "缺少manifest.json"
  manifest_data base (f ∷ fs) =
      let rest = manifest_data base fs in
      if base f.name == "manifest.json" then manifest_bytes f.content else rest

  unfoldable pub has_entry : String → List (ZipFile B) → Bool
  has_entry entry [] = false
  has_entry entry (f ∷ fs) = let rest = has_entry entry fs in if f.name == entry then true else rest

  unfoldable pub check_manifest :
      List (ZipFile B) → Result String Manifest → Result AppError Manifest
  unfolding has_entry unfit_package
  check_manifest fs (fails e) = unfit_package "manifest.json格式错误"
  check_manifest fs (returns m) =
      if lacks_field m
      then unfit_package "manifest缺少必要字段"
      else if not (has_entry m.entry fs)
      then unfit_package (concat ("入口脚本不存在: " ∷ m.entry ∷ []))
      else returns m

module _ {D F B : Type 0} (libs : Libraries D F B) where
  -- An entry that opens is written, even where reading it failed. The errors of the file system are
  -- ignored.
  abbrev write_content : String → Content B → F → F
  write_content path unopened files = files
  write_content path (read bytes failed) files = (libs.fs.write_file path bytes files).0

  unfoldable pub extract_one : String → ZipFile B → F → F
  extract_one dest f files =
      if f.is_dir
      then files
      else (let path = libs.paths.join (dest ∷ f.name ∷ []) in
          write_content path f.content (libs.fs.mkdir_all (libs.paths.dir path) files))

  unfoldable pub extract_all : String → List (ZipFile B) → F → F
  unfolding extract_one
  extract_all dest [] files = files
  extract_all dest (f ∷ fs) files = extract_all dest fs (extract_one dest f files)

  unfoldable pub checked_manifest : List (ZipFile B) → Result AppError Manifest
  unfolding manifest_data check_manifest
  checked_manifest fs = elim (manifest_data libs.paths.base fs) [
    | fails e ↦ fails e
    | returns bytes ↦ check_manifest fs (libs.unmarshal bytes)
  ]

  unfoldable pub package_dir : String → ℕ → String → String
  package_dir storage game_id version =
      libs.paths.join (storage ∷ "games" ∷ libs.number game_id ∷ version ∷ [])

  -- The manifest, the text called hash, and the size.
  unfoldable pub extract_and_validate :
      String → ℕ → String → Service D F → Service D F × Result AppError (Manifest × String × ℕ)
  unfolding checked_manifest extract_all package_dir bad_package
  extract_and_validate zip_path game_id version s = elim (libs.fs.open_zip zip_path s.files) [
    | fails e ↦ (s, bad_package e)
    | returns fs ↦ elim (checked_manifest fs) [
      | fails e ↦ (s, fails e)
      | returns m ↦
          let dest = package_dir s.storage_path game_id version in
          let files = extract_all dest fs (libs.fs.mkdir_all dest s.files) in
          let (changed, size) = libs.fs.stat zip_path files in
          (record s { files = files }, returns (m, libs.hex changed, size))
    ]
  ]

  abbrev pub version_row : String → ℕ → String → Manifest × String × ℕ → GameVersion
  version_row storage game_id version (m, hash, size) = record {
    id = 0;
    game_id = game_id;
    version = version;
    script_type = "js";
    package_path = concat (storage ∷ "/games/" ∷ libs.number game_id ∷ "/" ∷ version ∷ []);
    package_hash = hash;
    package_size = pos size;
    entry_script = m.entry;
    status = "active";
    created_at = 0;
    created_by = 0;
  }

  unfoldable pub record_version :
      ℕ
      → String
      → Service D F
      → Result AppError (Manifest × String × ℕ)
      → Service D F × Result AppError GameVersion
  unfolding created_row
  record_version game_id version s (fails e) = (s, fails e)
  record_version game_id version s (returns found) =
      let (db, row) =
        libs.db.create_version s.db (version_row s.storage_path game_id version found) in
      (record s { db = db }, created_row row)

  abbrev pub upload_path : ℕ → ℕ → String
  upload_path now game_id = libs.paths.join (
      libs.paths.temp_dir
      ∷ concat ("upload_" ∷ libs.number game_id ∷ "_" ∷ libs.number (now / 1000000) ∷ ".zip" ∷ [])
      ∷ [])

  -- The upload once its bytes are in the temporary file, which is removed at the end.
  unfoldable pub upload_stored :
      String → ℕ → String → Service D F → Service D F × Result AppError GameVersion
  unfolding extract_and_validate record_version
  upload_stored tmp game_id version s =
      let (extracted, found) = extract_and_validate tmp game_id version s in
      let (recorded, result) = record_version game_id version extracted found in
      (record recorded { files = libs.fs.remove tmp recorded.files }, result)

  -- `now` in nanoseconds.
  unfoldable pub upload_package :
      ℕ → ℕ → String → B → Service D F → Service D F × Result AppError GameVersion
  unfolding get_game upload_stored named with_data
  upload_package now game_id version bytes s = elim (get_game libs game_id s) [
    | fails e ↦ (s, fails e)
    | returns g ↦
        let (files, error) = libs.fs.write_file (upload_path now game_id) bytes s.files in
        elim error [
          | some e ↦
              (record s { files = files }, fails (with_data (str e) (named err_internal_server)))
          | none ↦
              upload_stored (upload_path now game_id) game_id version (record s { files = files })
        ]
  ]
