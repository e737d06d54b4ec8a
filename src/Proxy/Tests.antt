-- ===== src/Proxy/Tests.antt =====
-- The theorems on saving and serving, on a file system that is a table of files.
use athens.Prelude.{
  ◌≡◌, ◌≢◌, refl, sym, inl, inr, true, Option, none, some, List, [], ◌∷◌, ◌==◌, text_eq,
  text_beq_iff, Text, text, lookup, insert, lookup-insert, Bool-cases,
}
use athens.Errors.{
  GoError, Result, ok, err, plain, make_error, module_arg, version_arg, kind_arg, kind_not_found,
}
use athens.Storage.{Version}
use athens.Storage.Fs.{FileSystem, fs_info, fs_zip, fs_go_mod, fs_save}
use athens.Storage.Fs.RoundTrip.{fs_save-reads}
use athens.Stash.{Target, Stasher, gcs_stash, index_failure}
use athens.Stash.Locks.{gcs_stash-ok}
use athens.Index.{Line, index}
use athens.Download.Mode.{sync, DownloadFile, match_mode}
use athens.Download.Protocol.{World, RevInfo}
use athens.Proxy.{proxy_protocol}
use athens.Proxy.Serving.{info_fetched}

abbrev Files : Type 0
Files = List (Text × Text)

abbrev file_of : Option Text → Result Text
file_of none = err (plain (text "file does not exist"))
file_of (some content) = ok content

abbrev stat_of : Option Text → Option GoError
stat_of none = some (plain (text "file does not exist"))
stat_of (some content) = none

abbrev table : FileSystem Files
table = record {
  read_file = λ f path. file_of (lookup f path);
  stat = λ f path. stat_of (lookup f path);
  read_dir = λ f path. err (plain (text "file does not exist"));
  mkdir_all = λ f path. (none, f);
  write_file = λ f path content. (none, insert f path content);
  remove_all = λ f path. (none, f);
  is_not_exist = λ e. true;
}

table_written :
    (f : Files) (path content : Text)
    → (table.write_file f path content).0 ≡ none
    → table.read_file (table.write_file f path content).1 path ≡ ok content
table_written f path content h =
    let same : (path == path) ≡ true = (text_beq_iff path path).1 refl in
    rw (lookup-insert f path content path, same) refl

table_kept :
    (f : Files) (path content other : Text)
    → path ≢ other
    → (table.write_file f path content).0 ≡ none
    → table.read_file (table.write_file f path content).1 other ≡ table.read_file f other
table_kept f path content other ne h =
    rw (lookup-insert f path content other) (elim (Bool-cases (other == path)) [
      | inl same ↦ absurd (ne (sym ((text_beq_iff other path).0 same)))
      | inr differ ↦ rw differ refl
    ])

found_size :
    (found : Option Text) (content : Text) → file_of found ≡ ok content → stat_of found ≡ none
found_size none content h = absurd (cc)
found_size (some c) content h = refl

table_sized :
    (f : Files) (path content : Text)
    → table.read_file f path ≡ ok content
    → table.stat f path ≡ none
table_sized f path content h = found_size (lookup f path) content h

abbrev version : Version
version = record { go_mod = text "module a"; zip = text "z"; info = text "{}"; semver = text "v1" }

fs_save-reads_example :
    (fs_info table
        (text "/r")
        (fs_save table (text "/r") [] (text "a") version).1
        (text "a")
        (text "v1")
      ≡ ok (text "{}"))
    × (fs_zip table
          (text "/r")
          (fs_save table (text "/r") [] (text "a") version).1
          (text "a")
          (text "v1")
        ≡ ok (text "z"))
    × (fs_go_mod table
          (text "/r")
          (fs_save table (text "/r") [] (text "a") version).1
          (text "a")
          (text "v1")
        ≡ ok (text "module a"))
unfolding fs_save
fs_save-reads_example =
    fs_save-reads table table_written table_kept table_sized (text "/r") [] (text "a") version refl

abbrev fetch : Text → Text → Result Version
fetch m v = ok version

abbrev no_versions : Text → Result (RevInfo × List Text)
no_versions m = err (plain (text "no network"))

abbrev file : DownloadFile
file = record { mode = sync; download_url = []; paths = [] }

abbrev empty_world : World (Target Files (List Line))
empty_world = record { store = record { store = []; lines = [] }; jobs = [] }

passes_on :
    (inner : Stasher Files (List Line)) (t : Target Files (List Line)) (m v r : Text)
    → (inner t m v).0 ≡ ok r
    → gcs_stash inner t m v ≡ inner t m v
passes_on inner t m v r h = gcs_stash-ok inner t m v r h

info_fetched_example :
    (proxy_protocol table
        (text "/r")
        (λ s. s)
        fetch
        (index 7)
        gcs_stash
        file
        no_versions
        (text "strict")).info
      empty_world
      (text "a")
      (text "v1")
    ≡ (
      ok (some (text "{}")),
      record empty_world {
        store = record {
          store = (fs_save table (text "/r") [] (text "a") version).1;
          lines = (index 7 [] (text "a") (text "v1")).1;
        };
      },
    )
unfolding fs_save fs_info match_mode index index_failure lookup
info_fetched_example =
    info_fetched table table_written table_kept table_sized gcs_stash passes_on (text "/r") (λ s. s)
      fetch (index 7) file no_versions (text "strict") empty_world (text "a") (text "v1") version
      (make_error (text "fs.Info")
        (module_arg (text "a") ∷ version_arg (text "v1") ∷ kind_arg kind_not_found ∷ []))
      refl refl refl (inl refl) refl refl
