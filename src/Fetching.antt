-- ===== src/Fetching.antt =====
-- pkg/module/go_get_fetcher.go and zip_read_closer.go: the fetch of a version by `go mod download` in
-- a GOPATH of its own, and the archive that removes the GOPATH when it is closed. The
-- file system, the go command and encoding/json are parameters.
pub mod Kinds
pub mod Roots
pub mod Listing
mod Tests
use athens.Prelude.{
  Bool, true, false, Option, none, some, List, [], ◌∷◌, ◌++◌, ◌==◌, nat_eq, text_eq, if◌then◌else◌,
  Text, text, is_empty,
}
use athens.Errors.{
  GoError, Result, ok, err, wrapped, make_error, error_arg, string_arg, kind_arg, kind_not_found,
  kind_rate_limit, message, contains_text,
}
use athens.Storage.Fs.{join}
use athens.Stash.{fmt_mod_ver}

-- goModule: what `go mod download -json` prints; its directory and sums are not read.
pub record GoModule : Type 0 where
  pub version : Text
  pub error : Text
  pub info : Text
  pub go_mod : Text
  pub zip : Text

-- How a command ends: the error of Run, and what it printed.
pub record Output : Type 0 where
  pub run_error : Option GoError
  pub stdout : Text
  pub stderr : Text

-- afero and os/exec over a disk D. temp_dir makes a directory with a new name; run is the command in
-- a directory with a GOPATH.
pub record System (D : Type 0) : Type 0 where
  pub temp_dir : D → Text → Result Text × D
  pub mkdir_all : D → Text → Option GoError × D
  pub read_file : D → Text → Result Text
  pub chmod_all : D → Text → Option GoError × D
  pub remove_all : D → Text → Option GoError × D
  pub run : D → Text → Text → List Text → Output × D

-- json.NewDecoder(stdout).Decode
abbrev pub Decoder : Type 0 → Type 0
Decoder A = Text → Result A

unfoldable pub is_limit_hit : Text → Bool
unfolding contains_text
is_limit_hit o = contains_text o (text "403 response from api.github.com")

-- strings.ReplaceAll(repoURI, "/", "-")
abbrev pub dashes : Text → Text
dashes [] = []
dashes (c ∷ s) = (if c == b'/' then b'-' else c) ∷ dashes s

abbrev pub get_repo_dir_name : Text → Text → Text
get_repo_dir_name repo_uri version = dashes repo_uri ++ text "-" ++ version

-- strings.TrimSuffix(module, "/")
abbrev pub trim_suffix_slash : Text → Text
trim_suffix_slash [] = []
trim_suffix_slash (c ∷ []) = if c == b'/' then [] else c ∷ []
trim_suffix_slash (c ∷ d ∷ s) = c ∷ trim_suffix_slash (d ∷ s)

-- From the end of the command on.
unfoldable pub downloaded : Decoder GoModule → Output → Result GoModule
unfolding is_limit_hit
downloaded decode o = elim o.run_error [
  | some e ↦ elim (decode o.stdout) [
    | err bad ↦ err (
        make_error (text "module.downloadModule")
          (error_arg (wrapped (message e ++ text ": " ++ o.stderr) e) ∷ []))
    | ok m ↦
        if is_limit_hit m.error
        then err (
            make_error (text "module.downloadModule")
              (string_arg m.error ∷ kind_arg kind_rate_limit ∷ []))
        else err (
            make_error (text "module.downloadModule")
              (string_arg m.error ∷ kind_arg kind_not_found ∷ []))
  ]
  | none ↦ elim (decode o.stdout) [
    | err bad ↦ err (make_error (text "module.downloadModule") (error_arg bad ∷ []))
    | ok m ↦
        if is_empty m.error
        then ok m
        else err (make_error (text "module.downloadModule") (string_arg m.error ∷ []))
  ]
]

-- What is fetched; closing the archive clears the directory go_path.
pub record Fetched : Type 0 where
  pub semver : Text
  pub info : Text
  pub go_mod : Text
  pub zip : Text
  pub go_path : Text

module _ {D : Type 0} (sys : System D) (decode : Decoder GoModule) where
  -- clearFiles: the walk that makes the files writable, and the removal.
  unfoldable pub clear_files : D → Text → Option GoError × D
  clear_files d root =
      let walked = sys.chmod_all d root in
      let removed = sys.remove_all walked.1 root in
      elim walked.0 [
        | some e ↦ (some (make_error (text "module.ClearFiles") (error_arg e ∷ [])), walked.1)
        | none ↦ elim removed.0 [
          | some e ↦ (some (make_error (text "module.ClearFiles") (error_arg e ∷ [])), removed.1)
          | none ↦ (none, removed.1)
        ]
      ]

  unfoldable pub download_module : D → Text → Text → Text → Text → Result GoModule × D
  unfolding downloaded
  download_module d go_path repo_root mod_path version =
      let ran = sys.run d go_path repo_root (
        text "mod"
        ∷ text "download"
        ∷ text "-json"
        ∷ fmt_mod_ver (trim_suffix_slash mod_path) version
        ∷ []) in
      (downloaded decode ran.0, ran.1)

  abbrev pub fetch_error : {A : Type 0} → GoError → Result A
  fetch_error e = err (make_error (text "goGetFetcher.Fetch") (error_arg e ∷ []))

  -- The files of the downloaded module; the opened archive is its content.
  unfoldable pub read_module : D → Text → GoModule → Result Fetched
  read_module d root m = elim (sys.read_file d m.info) [
    | err e ↦ fetch_error e
    | ok info ↦ elim (sys.read_file d m.go_mod) [
      | err e ↦ fetch_error e
      | ok go_mod ↦ elim (sys.read_file d m.zip) [
        | err e ↦ fetch_error e
        | ok zip ↦
            ok
              record { semver = m.version; info = info; go_mod = go_mod; zip = zip; go_path = root }
      ]
    ]
  ]

  -- Fetch in the directory root, from MkdirAll on.
  unfoldable pub fetch_in : Text → D → Text → Text → Result Fetched × D
  unfolding clear_files download_module read_module
  fetch_in root d mod_path ver =
      let repo = join (join root (text "src")) (get_repo_dir_name mod_path ver) in
      let made = sys.mkdir_all d repo in
      let got = download_module made.1 root repo mod_path ver in
      elim made.0 [
        | some e ↦ (fetch_error e, (clear_files made.1 root).1)
        | none ↦ elim got.0 [
          | err e ↦ (fetch_error e, (clear_files got.1 root).1)
          | ok m ↦ (read_module got.1 root m, got.1)
        ]
      ]

  unfoldable pub fetch : Text → D → Text → Text → Result Fetched × D
  unfolding fetch_in
  fetch go_get_dir d mod_path ver =
      let made = sys.temp_dir d go_get_dir in
      elim made.0 [ err e ↦ (fetch_error e, made.1) | ok root ↦ fetch_in root made.1 mod_path ver ]

  -- zipReadCloser.Close
  unfoldable pub close_zip : D → Fetched → Option GoError × D
  unfolding clear_files
  close_zip d v = clear_files d v.go_path
