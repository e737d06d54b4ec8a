-- ===== src/Download/Protocol.antt =====
-- pkg/download/protocol.go: the protocol that answers cmd/go from the storage, the upstream lister
-- and the stasher. The two calls of `List` that run side by side only read, so their order does not
-- matter. A goroutine that stashes in the background is a job of the state, which runs later.
pub mod Lists
pub mod Downloads
use athens.Prelude.{
  Bool, true, false, ◌&&◌, ◌||◌, not, Option, none, some, List, [], ◌∷◌, ◌++◌, ◌==◌, text_eq,
  if◌then◌else◌, Text, text, is_empty,
}
use athens.Errors.{
  GoError, Result, ok, err, make_error, error_arg, string_arg, module_arg, kind_arg, kind_not_found,
  kind_redirect, is_not_found_err, is_repo_not_found_err,
}
use athens.Storage.{Backend}
use athens.Download.Mode.{
  Mode, sync, async, redirect, async_redirect, nothing, unknown, DownloadFile, match_mode,
}
use athens.Download.Versions.{remove_pseudo_versions, union}

abbrev pub strict : Text
strict = text "strict"

abbrev pub offline : Text
offline = text "offline"

abbrev pub fallback : Text
fallback = text "fallback"

-- storage/rev_info.go, as the lister fills it in: the version and its time.
pub record RevInfo : Type 0 where
  pub version : Text
  pub time : Text

-- The state of the proxy as the protocol sees it: the storage, and the stashes that goroutines have
-- still to make.
pub record World (S : Type 0) : Type 0 where
  pub store : S
  pub jobs : List (Text × Text)

-- What the protocol is built from (the struct `protocol`): the stasher of pkg/stash, which returns
-- the version that it saved, and the upstream lister of pkg/module.
pub record Opts (S : Type 0) : Type 0 where
  pub df : DownloadFile
  pub storage : Backend S
  pub stash : S → Text → Text → Result Text × S
  pub upstream : Text → Result (RevInfo × List Text)
  pub network_mode : Text

-- The end of `List`, once the storage has answered and the mode is not offline.
list_upstream : Text → Text → List Text → Result (List Text) → Result (List Text)
list_upstream mode mod_path stored (ok go_list) = ok (union go_list (remove_pseudo_versions stored))
list_upstream mode mod_path stored (err e) =
    let op = text "protocol.List" in
    if not (is_repo_not_found_err e) && mode == strict
    then err (make_error op (error_arg e ∷ []))
    else if not (is_repo_not_found_err e) && mode == fallback
    then ok stored
    else if is_repo_not_found_err e && is_empty stored
    then err (make_error op (module_arg mod_path ∷ kind_arg kind_not_found ∷ error_arg e ∷ []))
    else if is_repo_not_found_err e && is_empty (remove_pseudo_versions stored)
    then ok stored
    else ok (union [] (remove_pseudo_versions stored))

versions_of : Result (RevInfo × List Text) → Result (List Text)
versions_of (ok (rev, versions)) = ok versions
versions_of (err e) = err e

module _ {S : Type 0} (p : Opts S) where
  pub list : S → Text → Result (List Text)
  unfolding list_upstream versions_of
  list s mod_path = elim (p.storage.list s mod_path) [
    | err e ↦ err (make_error (text "protocol.List") (error_arg e ∷ []))
    | ok stored ↦
        if p.network_mode == offline
        then ok stored
        else list_upstream p.network_mode mod_path stored (versions_of (p.upstream mod_path))
  ]

  pub latest : Text → Result RevInfo
  latest mod_path =
      let op = text "protocol.Latest" in
      if p.network_mode == offline
      then err (
          make_error op (
            string_arg (text "Athens is in offline mode, use /list endpoint")
            ∷ kind_arg kind_not_found
            ∷ []))
      else elim (p.upstream mod_path) [
        | err e ↦ err (make_error op (error_arg e ∷ []))
        | ok (rev, versions) ↦ ok rev
      ]

-- What `processDownload` leaves behind in its caller: the result of the second read of the storage,
-- an error of its own, or neither of them.
pub data Processed (A : Type 0) : Type 0 where
  read_again : Result A → Processed A
  failed : GoError → Processed A
  ignored : Processed A

module _ {S : Type 0} (p : Opts S) {A : Type 0} where
  -- The switch of `processDownload`. `read` is its argument f: the read of the new version.
  process_mode : Mode → World S → Text → Text → (S → Text → Result A) → Processed A × World S
  process_mode sync w mod_path ver read =
      let (found, s) = p.stash w.store mod_path ver in
      (
        elim found [
          | err e ↦ failed (make_error (text "protocol.processDownload") (error_arg e ∷ []))
          | ok new_ver ↦ read_again (read s new_ver)
        ],
        record w { store = s },
      )
  process_mode async w mod_path ver read = (
    failed (
        make_error (text "protocol.processDownload")
          (string_arg (text "async: module not found") ∷ kind_arg kind_not_found ∷ [])),
    record w { jobs = w.jobs ++ (mod_path, ver) ∷ [] },
  )
  process_mode redirect w mod_path ver read = (
    failed (
        make_error (text "protocol.processDownload")
          (string_arg (text "redirect") ∷ kind_arg kind_redirect ∷ [])),
    w,
  )
  process_mode async_redirect w mod_path ver read = (
    failed (
        make_error (text "protocol.processDownload")
          (string_arg (text "async_redirect: module not found") ∷ kind_arg kind_redirect ∷ [])),
    record w { jobs = w.jobs ++ (mod_path, ver) ∷ [] },
  )
  process_mode nothing w mod_path ver read = (
    failed (
        make_error (text "protocol.processDownload")
          (string_arg (text "none") ∷ kind_arg kind_not_found ∷ [])),
    w,
  )
  process_mode (unknown m) w mod_path ver read = (ignored, w)

  pub process_download : World S → Text → Text → (S → Text → Result A) → Processed A × World S
  unfolding process_mode
  process_download w mod_path ver read = process_mode (match_mode p.df mod_path) w mod_path ver read

  -- The tests on `err` behind the download. A value that was never read is nil, here `none`.
  finish : Text → Processed A → Result (Option A)
  finish op (read_again (ok a)) = ok (some a)
  finish op (read_again (err e)) = err (make_error op (error_arg e ∷ []))
  finish op (failed e) = err (make_error op (error_arg e ∷ []))
  finish op ignored = ok none

  -- `Info`, `GoMod` and `Zip` are this, each with its name and its read.
  pub serve :
      Text → (S → Text → Text → Result A) → World S → Text → Text → Result (Option A) × World S
  unfolding finish
  serve op read w mod_path ver = elim (read w.store mod_path ver) [
    | ok a ↦ (ok (some a), w)
    | err e ↦
        if is_not_found_err e
        then (let (done, w') = process_download w mod_path ver (λ s v. read s mod_path v) in
            (finish op done, w'))
        else (err (make_error op (error_arg e ∷ [])), w)
  ]

module _ {S : Type 0} (p : Opts S) where
  unfoldable pub info : World S → Text → Text → Result (Option Text) × World S
  unfolding serve
  info = serve p (text "protocol.Info") p.storage.info

  unfoldable pub go_mod : World S → Text → Text → Result (Option Text) × World S
  unfolding serve
  go_mod = serve p (text "protocol.GoMod") p.storage.go_mod

  unfoldable pub zip : World S → Text → Text → Result (Option Text) × World S
  unfolding serve
  zip = serve p (text "protocol.Zip") p.storage.zip

  -- A goroutine of an asynchronous mode runs: its result is dropped, its effect stays.
  run_jobs_from : S → List (Text × Text) → S
  run_jobs_from s [] = s
  run_jobs_from s ((mod_path, ver) ∷ jobs) = run_jobs_from (p.stash s mod_path ver).1 jobs

  pub run_jobs : World S → World S
  unfolding run_jobs_from
  run_jobs w = record { store = run_jobs_from w.store w.jobs; jobs = [] }
