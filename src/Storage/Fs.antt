-- ===== src/Storage/Fs.antt =====
-- pkg/storage/fs: the backend that keeps the files of each version in a directory of its own. The
-- file system (afero.Fs) is a parameter. filepath.Join is modelled on clean parts, as module paths and
-- versions are: it puts "/" between them.
pub mod RoundTrip
use athens.Prelude.{
  ℕ, Bool, true, false, ◌&&◌, not, Option, none, some, List, [], ◌∷◌, ◌++◌, ◌==◌, nat_eq,
  if◌then◌else◌, Text, text, is_empty, length, strip_prefix,
}
use athens.Errors.{
  GoError, Result, ok, err, make_error, error_arg, module_arg, version_arg, kind_arg,
  kind_not_found, kind_unexpected,
}
use athens.Storage.{Backend, Version}

-- What the backend calls of a file system: reading a file, the failure of `Stat` on an open file, a directory (its names, and whether
-- each is a directory), making a directory with its parents, writing a file anew, removing a tree,
-- and os.IsNotExist.
pub record FileSystem (F : Type 0) : Type 0 where
  pub read_file : F → Text → Result Text
  pub stat : F → Text → Option GoError
  pub read_dir : F → Text → Result (List (Text × Bool))
  pub mkdir_all : F → Text → Option GoError × F
  pub write_file : F → Text → Text → Option GoError × F
  pub remove_all : F → Text → Option GoError × F
  pub is_not_exist : GoError → Bool

unfoldable pub join : Text → Text → Text
join dir name = dir ++ b'/' ∷ name

unfoldable pub version_location : Text → Text → Text → Text
unfolding join
version_location root mod_path version = join (join root mod_path) version

-- The directories of a listing whose names are versions; canonical is semver.Canonical.
unfoldable pub versions_in : (Text → Text) → List (Text × Bool) → List Text
unfolding strip_prefix
versions_in canonical [] = []
versions_in canonical ((name, is_dir) ∷ infos) =
    let rest = versions_in canonical infos in
    if not is_dir
    then rest
    else if is_empty (canonical name)
    then rest
    else elim (strip_prefix (canonical name) name) [ none ↦ rest | some _ ↦ name ∷ rest ]

module _ {F : Type 0} (fs : FileSystem F) (root : Text) where
  -- The reads of `Info` and `GoMod`, and the opening of the archive in `Zip`: every failure is
  -- "not found".
  read_version : Text → Text → F → Text → Text → Result Text
  read_version op name f mod_path version =
      elim (fs.read_file f (join (version_location root mod_path version) name)) [
        | err e ↦ err (
            make_error op
              (module_arg mod_path ∷ version_arg version ∷ kind_arg kind_not_found ∷ []))
        | ok content ↦ ok content
      ]

  unfoldable pub fs_info : F → Text → Text → Result Text
  unfolding read_version
  fs_info f mod_path version =
      read_version (text "fs.Info") (version ++ text ".info") f mod_path version

  unfoldable pub fs_go_mod : F → Text → Text → Result Text
  unfolding read_version
  fs_go_mod = read_version (text "fs.GoMod") (text "go.mod")

  -- A failure of `Stat` on the open file keeps its kind.
  unfoldable pub fs_zip : F → Text → Text → Result Text
  unfolding read_version
  fs_zip f mod_path version =
      elim (read_version (text "fs.Zip") (text "source.zip") f mod_path version) [
        | err e ↦ err e
        | ok content ↦
            elim (fs.stat f (join (version_location root mod_path version) (text "source.zip"))) [
              | some e ↦ err (make_error (text "fs.Zip") (error_arg e ∷ []))
              | none ↦ ok content
            ]
      ]

  unfoldable pub fs_exists : F → Text → Text → Result Bool
  fs_exists f mod_path version = elim (fs.read_dir f (version_location root mod_path version)) [
    | err e ↦
        if fs.is_not_exist e
        then ok false
        else err (
            make_error (text "fs.Exists")
              (module_arg mod_path ∷ version_arg version ∷ error_arg e ∷ []))
    | ok files ↦ ok (length files == 3)
  ]

  unfoldable pub fs_list : (Text → Text) → F → Text → Result (List Text)
  unfolding versions_in
  fs_list canonical f mod_path = elim (fs.read_dir f (join root mod_path)) [
    | err e ↦
        if fs.is_not_exist e
        then ok []
        else err (
            make_error (text "fs.List")
              (module_arg mod_path ∷ error_arg e ∷ kind_arg kind_unexpected ∷ []))
    | ok infos ↦ ok (versions_in canonical infos)
  ]

  -- `Save`: a directory and three files, until one of the steps fails.
  save_error : Text → Text → GoError → GoError
  save_error mod_path version e =
      make_error (text "fs.Save") (error_arg e ∷ module_arg mod_path ∷ version_arg version ∷ [])

  save_info : F → Text → Text → Version → Option GoError × F
  save_info f dir version v =
      let done = fs.write_file f (join dir (version ++ text ".info")) v.info in
      (
        elim done.0 [
          | none ↦ none
          | some e ↦ some (make_error (text "fs.Save") (error_arg e ∷ []))
        ],
        done.1,
      )

  save_zip : F → Text → Text → Text → Version → Option GoError × F
  unfolding save_error save_info
  save_zip f dir mod_path version v =
      let done = fs.write_file f (join dir (text "source.zip")) v.zip in
      elim done.0 [
        | some e ↦ (some (save_error mod_path version e), done.1)
        | none ↦ save_info done.1 dir version v
      ]

  save_go_mod : F → Text → Text → Text → Version → Option GoError × F
  unfolding save_error save_zip
  save_go_mod f dir mod_path version v =
      let done = fs.write_file f (join dir (text "go.mod")) v.go_mod in
      elim done.0 [
        | some e ↦ (some (save_error mod_path version e), done.1)
        | none ↦ save_zip done.1 dir mod_path version v
      ]

  unfoldable pub fs_save : F → Text → Version → Option GoError × F
  unfolding save_error save_go_mod
  fs_save f mod_path v =
      let dir = version_location root mod_path v.semver in
      let done = fs.mkdir_all f dir in
      elim done.0 [
        | some e ↦ (some (save_error mod_path v.semver e), done.1)
        | none ↦ save_go_mod done.1 dir mod_path v.semver v
      ]

  unfoldable pub fs_delete : F → Text → Text → Option GoError × F
  unfolding fs_exists
  fs_delete f mod_path version = elim (fs_exists f mod_path version) [
    | err e ↦ (
      some (
          make_error (text "fs.Delete")
            (error_arg e ∷ module_arg mod_path ∷ version_arg version ∷ [])),
      f,
    )
    | ok there ↦ if there then fs.remove_all f (version_location root mod_path version) else (
      some (
          make_error (text "fs.Delete")
            (module_arg mod_path ∷ version_arg version ∷ kind_arg kind_not_found ∷ [])),
      f,
    )
  ]

  -- The backend that `NewStorage` makes.
  abbrev pub fs_backend : (Text → Text) → Backend F
  fs_backend canonical = record {
    list = fs_list canonical;
    info = fs_info;
    go_mod = fs_go_mod;
    zip = fs_zip;
    save = fs_save;
    own_exists = some fs_exists;
  }
