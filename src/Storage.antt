-- ===== src/Storage.antt =====
-- pkg/storage: the interface of the backends (backend.go, getter.go, saver.go, lister.go,
-- checker.go). The state S is the backend's content; a read does not change it. A context carries
-- deadlines and log entries only and is left out. Contents of files are texts of bytes.
pub mod Catalog
pub mod Fs
pub mod Objects
pub mod Parallel
mod Tests
mod UploadTests
mod ObjectsTests
use athens.Prelude.{Bool, true, false, List, Option, none, some, if◌then◌else◌, nat_eq, Text}
use athens.Errors.{GoError, Result, ok, err, is, kind_not_found}

-- storage/version.go: what is fetched from upstream for one version of a module.
pub record Version : Type 0 where
  pub go_mod : Text
  pub zip : Text
  pub info : Text
  pub semver : Text

pub record Backend (S : Type 0) : Type 0 where
  pub list : S → Text → Result (List Text)
  pub info : S → Text → Text → Result Text
  pub go_mod : S → Text → Text → Result Text
  pub zip : S → Text → Text → Result Text
  pub save : S → Text → Version → Option GoError × S
  -- Some backends implement Checker themselves.
  pub own_exists : Option (S → Text → Text → Result Bool)

-- storage.WithChecker(b).Exists, of the backend itself where it is a Checker.
unfoldable pub exists : {S : Type 0} → Backend S → S → Text → Text → Result Bool
unfolding is
exists b s mod_path version = elim b.own_exists [
  | some own ↦ own s mod_path version
  | none ↦ elim (b.info s mod_path version) [
    | ok _ ↦ ok true
    | err e ↦ if is (some e) kind_not_found then ok false else err e
  ]
]
