-- ===== src/Download/Tests.antt =====
-- The theorems of the download protocol at concrete inputs, on a storage that holds lists of names.
use athens.Prelude.{
  ◌≡◌, ◌≢◌, refl, nat_eq, true, false, none, some, List, [], ◌∷◌, text_eq, if◌then◌else◌, Text,
  text, contains, text_beq, not, ◌&&◌, ◌||◌, IsDistinct, is_empty, strip_prefix, arith,
}
use athens.Errors.{
  GoError, Result, ok, err, make_error, kind_arg, kind_not_found, plain, kind, Fails,
  is_repo_not_found_err,
}
use athens.Storage.{Backend}
use athens.Paths.{matches_pattern}
use athens.Download.Mode.{
  Mode, sync, async, nothing, redirect, DownloadFile, DownloadPath, match_mode,
}
use athens.Download.Mode.Selection.{match_mode-first}
use athens.Download.Versions.{remove_pseudo_versions, is_pseudo_version}
use athens.Download.Protocol.{Opts, World, RevInfo, list, info, run_jobs, serve, strict, offline}
use athens.Download.Protocol.Lists.{list_merged, list_gone}
use athens.Download.Protocol.Downloads.{serve_sync, serve_at_once, info_after_async, answer_kind}

abbrev pub missing : GoError
missing = make_error (text "fs.Info") (kind_arg kind_not_found ∷ [])

-- A storage of one module: the versions that it holds; the info of a version is the version.
abbrev pub names : Backend (List Text)
names = record {
  list = λ s m. ok s;
  info = λ s m v. if contains s v then ok v else err missing;
  go_mod = λ s m v. if contains s v then ok v else err missing;
  zip = λ s m v. if contains s v then ok v else err missing;
  save = λ s m v. (none, v.semver ∷ s);
  own_exists = none;
}

abbrev pub with_mode : Mode → Text → Result (RevInfo × List Text) → Opts (List Text)
with_mode m network upstream = record {
  df = record { mode = m; download_url = []; paths = [] };
  storage = names;
  stash = λ s m v. (ok v, v ∷ s);
  upstream = λ m. upstream;
  network_mode = network;
}

abbrev pub rev : RevInfo
rev = record { version = text "v1.0.0"; time = [] }

abbrev pseudo : Text
pseudo = text "v0.0.0-20190101120000-abcdefabcdef"

pseudo_is_pseudo : is_pseudo_version pseudo ≡ true
unfolding is_pseudo_version strip_prefix
pseudo_is_pseudo = refl

later_pseudo_is_pseudo : is_pseudo_version (text "v1.2.4-0.20190101120000-abcdef") ≡ true
unfolding is_pseudo_version strip_prefix
later_pseudo_is_pseudo = refl

release_is_not_pseudo : is_pseudo_version (text "v1.2.3-rc.1") ≡ false
unfolding is_pseudo_version strip_prefix
release_is_not_pseudo = refl

abbrev upstream_ok : Opts (List Text)
upstream_ok = with_mode sync strict (ok (rev, text "v1.0.0" ∷ []))

online : strict ≢ offline
online e = ground arith

list_merged_example :
    (vs : List Text) × (list upstream_ok (pseudo ∷ text "v0.9.0" ∷ []) (text "m") ≡ ok vs)
    × ((v : Text)
        → contains vs v ≡ (
            contains (text "v1.0.0" ∷ []) v
            || (contains (pseudo ∷ text "v0.9.0" ∷ []) v && not (is_pseudo_version v))))
    × IsDistinct vs
list_merged_example =
    list_merged upstream_ok (pseudo ∷ text "v0.9.0" ∷ []) (text "m") (pseudo ∷ text "v0.9.0" ∷ [])
      refl online rev (text "v1.0.0" ∷ []) refl

abbrev unreachable : GoError
unreachable = plain (text "dial tcp: i/o timeout")

abbrev repo_gone : GoError
repo_gone = plain (text "remote: Repository not found")

list_gone_example :
    (vs : List Text) × (list (with_mode sync strict (err repo_gone)) (pseudo ∷ []) (text "m")
      ≡ ok vs)
    × ((v : Text)
        → contains vs v ≡ (
            contains (pseudo ∷ []) v
            && (not (is_pseudo_version v) || is_empty (remove_pseudo_versions (pseudo ∷ [])))))
unfolding is_repo_not_found_err
list_gone_example =
    list_gone (with_mode sync strict (err repo_gone)) (pseudo ∷ []) (text "m") (pseudo ∷ []) refl
      online repo_gone refl refl (λ e. cc)

abbrev v1 : Text
v1 = text "v1"

abbrev idle : World (List Text)
idle = record { store = []; jobs = [] }

abbrev of_mode : Mode → Opts (List Text)
of_mode m = with_mode m strict (err unreachable)

abbrev broken : List Text → Text → Text → Result Text
broken s m v = err unreachable

missing_kind : kind missing ≡ kind_not_found
unfolding kind make_error
missing_kind = refl

serve_sync_example :
    serve (of_mode sync) (text "protocol.Zip") names.zip idle (text "m") v1
    ≡ (ok (some v1), record { store = v1 ∷ []; jobs = [] })
unfolding contains text_beq match_mode
serve_sync_example =
    serve_sync (of_mode sync) (text "protocol.Zip") names.zip idle (text "m") v1 missing refl
      missing_kind v1 v1 refl refl refl

serve_at_once_example :
    Fails
      (serve (of_mode redirect) (text "protocol.GoMod") names.go_mod idle (text "m") v1).0
      (answer_kind redirect)
    × ((serve (of_mode redirect) (text "protocol.GoMod") names.go_mod idle (text "m") v1).1 ≡ idle)
unfolding contains match_mode
serve_at_once_example =
    serve_at_once (of_mode redirect) (text "protocol.GoMod") names.go_mod idle (text "m") v1 missing
      refl missing_kind redirect refl (λ e. cc) refl

info_after_async_example :
    (info
      (of_mode async)
      (run_jobs (of_mode async) (info (of_mode async) idle (text "m") v1).1)
      (text "m")
      v1).0
    ≡ ok (some v1)
unfolding contains match_mode text_beq
info_after_async_example =
    info_after_async (of_mode async) [] (text "m") v1 missing v1 refl missing_kind refl refl

abbrev private_repo : DownloadPath
private_repo = record { pattern_text = text "github.com/me"; mode = nothing; download_url = [] }

abbrev two_paths : DownloadFile
two_paths = record {
  mode = sync;
  download_url = [];
  paths = record private_repo { pattern_text = text "gitlab.com" } ∷ private_repo ∷ [];
}

match_mode-first_example : match_mode two_paths (text "github.com/me/lib") ≡ nothing
unfolding matches_pattern
match_mode-first_example =
    match_mode-first two_paths (text "github.com/me/lib")
      (record private_repo { pattern_text = text "gitlab.com" } ∷ []) [] private_repo refl
      (refl, tt) refl
