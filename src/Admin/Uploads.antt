-- ===== src/Admin/Uploads.antt =====
-- What an upload of internal/admin/handler.go checks, and what it writes.
use online_game.Prelude.{
  ℕ, String, ◌≡◌, ◌≢◌, ◌⊎◌, inl, inr, true, false, none, List, arith, Option-cases,
}
use online_game.Prelude.Result.{Result, returns, fails, Result-cases}
use online_game.Prelude.Equality.{string_eq}
use online_game.Prelude.Value.{str}
use online_game.Api.Error.{AppError, named, with_data, err_internal_server, err_invalid_package}
use online_game.GameService.{Game, GameVersion}
use online_game.Admin.{Manifest, ZipFile, Libraries, Service}
use online_game.Admin.Catalog.{get_game, created_row}
use online_game.Admin.Packages.{
  has_entry, lacks_field, check_manifest, checked_manifest, manifest_data, extract_all,
  extract_and_validate, package_dir, version_row, record_version, upload_path, upload_stored,
  upload_package,
}

module _ {B : Type 0} where
  check_manifest-returns :
      (fs : List (ZipFile B)) (r : Result String Manifest) (m : Manifest)
      → check_manifest fs r ≡ returns m
      → (r ≡ returns m) × (lacks_field m ≡ false) × (has_entry m.entry fs ≡ true)
  unfolding check_manifest
  check_manifest-returns fs (fails e) m h = ground arith
  check_manifest-returns fs (returns n) m h = ground arith

module _ {D F B : Type 0} (libs : Libraries D F B) where
  -- The manifest that stands in the package, complete, with an entry that is a file of the package.
  abbrev pub Declares : List (ZipFile B) → Manifest → Type 0
  Declares fs m =
      ((bytes : B) × (manifest_data libs.paths.base fs ≡ returns bytes)
        × (libs.unmarshal bytes ≡ returns m))
      × (m.name ≢ "")
      × (m.version ≢ "")
      × (m.entry ≢ "")
      × (has_entry m.entry fs ≡ true)

  named-Declares :
      (fs : List (ZipFile B)) (m : Manifest) (bytes : B)
      → manifest_data libs.paths.base fs ≡ returns bytes
      → libs.unmarshal bytes ≡ returns m
      → lacks_field m ≡ false
      → has_entry m.entry fs ≡ true
      → Declares fs m
  named-Declares fs m bytes found parsed full there = (
    (bytes, found, parsed),
    ground (arith, full, string_eq.decides m.name ""),
    ground (arith, full, string_eq.decides m.version ""),
    ground (arith, full, string_eq.decides m.entry ""),
    there,
  )

  checked_manifest-returns :
      (fs : List (ZipFile B)) (m : Manifest) → checked_manifest libs fs ≡ returns m → Declares fs m
  unfolding checked_manifest
  checked_manifest-returns fs m fit = elim (Result-cases (manifest_data libs.paths.base fs)) [
    | inl (e, missing) ↦ absurd (ground (arith, fit, missing))
    | inr (bytes, found) ↦
        let (parsed, full, there) =
          check_manifest-returns fs (libs.unmarshal bytes) m (ground (arith, found, fit)) in
        named-Declares fs m bytes found parsed full there
  ]

  -- What an upload that passes its checks leaves: the files of the package under the directory of
  -- the version, and the row of the version, as far as the database creates it.
  abbrev pub Extracted :
      String → ℕ → String → F → Service D F → Service D F × Result AppError GameVersion → Type 0
  Extracted tmp game_id version written s r =
      (fs : List (ZipFile B)) × (m : Manifest) × (libs.fs.open_zip tmp written ≡ returns fs)
      × Declares fs m
      × (let dest = package_dir libs s.storage_path game_id version in
          let files = extract_all libs dest fs (libs.fs.mkdir_all dest written) in
          let stat = libs.fs.stat tmp files in
          let row = version_row libs s.storage_path game_id version (m, libs.hex stat.0, stat.1) in
          (r.0.files ≡ libs.fs.remove tmp files)
          × (r.0.db ≡ (libs.db.create_version s.db row).0)
          × (r.1 ≡ created_row (libs.db.create_version s.db row).1))

  upload_stored_cases :
      (tmp : String) (game_id : ℕ) (version : String) (s : Service D F)
      → let r = upload_stored libs tmp game_id version s in
        ((e : AppError) × (r.1 ≡ fails e)
          × (r.0.db ≡ s.db)
          × (r.0.files ≡ libs.fs.remove tmp s.files))
        ⊎ Extracted tmp game_id version s.files s r
  unfolding upload_stored extract_and_validate record_version
  upload_stored_cases tmp game_id version s = elim (Result-cases (libs.fs.open_zip tmp s.files)) [
    | inl (e, broken) ↦ inl (
      with_data (str e) (named err_invalid_package),
      ground (arith, broken),
      ground (arith, broken),
      ground (arith, broken),
    )
    | inr (fs, opened) ↦ elim (Result-cases (checked_manifest libs fs)) [
      | inl (e, unfit) ↦ inl (
        e,
        ground (arith, opened, unfit),
        ground (arith, opened, unfit),
        ground (arith, opened, unfit),
      )
      | inr (m, fit) ↦ inr (
        fs,
        m,
        opened,
        checked_manifest-returns fs m fit,
        (ground (arith, opened, fit), ground (arith, opened, fit), ground (arith, opened, fit)),
      )
    ]
  ]

  upload_package_on :
      (now game_id : ℕ) (version : String) (bytes : B) (s : Service D F) (g : Game)
      → get_game libs game_id s ≡ returns g
      → (libs.fs.write_file (upload_path libs now game_id) bytes s.files).1 ≡ none
      → upload_package libs now game_id version bytes s
        ≡ upload_stored libs (upload_path libs now game_id) game_id version (record s {
          files = (libs.fs.write_file (upload_path libs now game_id) bytes s.files).0;
        })
  unfolding upload_package
  upload_package_on now game_id version bytes s g found wrote = ground (arith, found, wrote)

  -- An upload is refused with an error and leaves the database as it is; or the game was found, the
  -- package opens, the manifest.json in it has a name, a version and an entry, and the entry is a file
  -- of the package. Then the files are extracted, whether or not the database creates the row of the version.
  pub upload_package_cases :
      (now game_id : ℕ) (version : String) (bytes : B) (s : Service D F)
      → let r = upload_package libs now game_id version bytes s in
        let tmp = upload_path libs now game_id in
        ((e : AppError) × (r.1 ≡ fails e) × (r.0.db ≡ s.db))
        ⊎ ((g : Game) × (get_game libs game_id s ≡ returns g)
            × Extracted tmp game_id version (libs.fs.write_file tmp bytes s.files).0 s r)
  unfolding upload_package
  upload_package_cases now game_id version bytes s = elim (Result-cases (get_game libs game_id s)) [
    | inl (e, missing) ↦ inl (e, ground (arith, missing), ground (arith, missing))
    | inr (g, found) ↦
        elim (Option-cases (libs.fs.write_file (upload_path libs now game_id) bytes s.files).1) [
          | inr (e, full) ↦ inl (
            with_data (str e) (named err_internal_server),
            ground (arith, found, full),
            ground (arith, found, full),
          )
          | inl wrote ↦
              let same = upload_package_on now game_id version bytes s g found wrote in
              elim (upload_stored_cases (upload_path libs now game_id) game_id version (record s {
                files = (libs.fs.write_file (upload_path libs now game_id) bytes s.files).0;
              })) [
                | inl (e, failed, kept, files) ↦ inl (e, rw same failed, rw same kept)
                | inr extracted ↦ inr (g, found, rw same extracted)
              ]
        ]
  ]
