-- ===== src/Download/Protocol/Downloads.antt =====
-- `Info`, `GoMod` and `Zip`, and what `processDownload` does in each download mode.
use athens.Prelude.{
  ℕ, ◌≡◌, ◌≢◌, refl, Bool, true, false, none, some, [], ◌∷◌, ◌++◌, nat_eq, if◌then◌else◌, Text,
  arith, append-nil,
}
use athens.Errors.{
  GoError, Result, ok, err, kind, kind_not_found, kind_redirect, is_not_found_err, make_error,
  Fails,
}
use athens.Download.Mode.{
  Mode, sync, async, redirect, async_redirect, nothing, unknown, is_known, match_mode,
}
use athens.Download.Protocol.{
  World, Opts, process_mode, process_download, finish, serve, info, run_jobs, run_jobs_from,
}

-- The kind with which a mode answers for a missing version, and whether it leaves a stash to run.
abbrev pub answer_kind : Mode → ℕ
answer_kind redirect = kind_redirect
answer_kind async_redirect = kind_redirect
answer_kind _ = kind_not_found

abbrev pub leaves_job : Mode → Bool
leaves_job async = true
leaves_job async_redirect = true
leaves_job _ = false

module _ {S A : Type 0} (p : Opts S) (op : Text) (read : S → Text → Text → Result A) (w : World S)
    (mod_path ver : Text) where
  -- What is stored is served as it is, and the proxy's state stays.
  serve_stored :
      (a : A) → read w.store mod_path ver ≡ ok a → serve p op read w mod_path ver ≡ (ok (some a), w)
  unfolding serve
  serve_stored a h = rw (h, serve) refl

  -- A storage that fails in another way than by not finding the version fails the request with its
  -- kind, and nothing is downloaded.
  pub serve_storage_failure :
      (e : GoError)
      → read w.store mod_path ver ≡ err e
      → kind e ≢ kind_not_found
      → Fails (serve p op read w mod_path ver).0 (kind e) × ((serve p op read w mod_path ver).1 ≡ w)
  unfolding serve
  serve_storage_failure e h other =
      let found : is_not_found_err e ≡ false = unfold is_not_found_err in ground arith in
      (rw (h, serve) (rw found (unfold make_error kind in refl)), rw (h, serve) (rw found refl))

  module _ (e : GoError) (missing : read w.store mod_path ver ≡ err e)
      (gone : kind e ≡ kind_not_found) where
    serve_missing : serve p op read w mod_path ver ≡ (
      finish p op
          (process_mode p (match_mode p.df mod_path) w mod_path ver (λ s v. read s mod_path v)).0,
      (process_mode p (match_mode p.df mod_path) w mod_path ver (λ s v. read s mod_path v)).1,
    )
    unfolding serve
    serve_missing =
        let found : is_not_found_err e ≡ true = unfold is_not_found_err in ground arith in
        rw (missing, serve) (rw found (unfold process_download in refl))

    -- For a version that the storage does not find, in the sync mode, where the stash succeeds and
    -- its version is then in the storage: the answer is what the storage holds after the stash under
    -- the version that the stasher resolved.
    pub serve_sync :
        (new_ver : Text) (a : A)
        → match_mode p.df mod_path ≡ sync
        → (p.stash w.store mod_path ver).0 ≡ ok new_ver
        → read (p.stash w.store mod_path ver).1 mod_path new_ver ≡ ok a
        → serve p op read w mod_path ver
          ≡ (ok (some a), record w { store = (p.stash w.store mod_path ver).1 })
    serve_sync new_ver a m stashed again =
        rw serve_missing (rw m (unfold process_mode finish in rw stashed (rw (again, finish) refl)))

    -- Where the stash fails, the request fails with the kind of that failure.
    pub serve_sync_failure :
        (e' : GoError)
        → match_mode p.df mod_path ≡ sync
        → (p.stash w.store mod_path ver).0 ≡ err e'
        → Fails (serve p op read w mod_path ver).0 (kind e')
    serve_sync_failure e' m stashed =
        rw serve_missing (rw m (unfold process_mode finish make_error kind in rw stashed refl))

    -- For a version that the storage does not find, the known modes other than sync do not wait for
    -- a download: the storage stays as it is, and the request fails with a redirect or as not found;
    -- the asynchronous modes leave the stash to run later.
    pub serve_at_once :
        (m : Mode)
        → match_mode p.df mod_path ≡ m
        → m ≢ sync
        → is_known m ≡ true
        → Fails (serve p op read w mod_path ver).0 (answer_kind m)
          × ((serve p op read w mod_path ver).1
              ≡ record w { jobs = w.jobs ++ (if leaves_job m then (mod_path, ver) ∷ [] else []) })
    unfolding process_mode finish make_error kind
    serve_at_once sync e m known = absurd (m refl)
    serve_at_once async e m known = (rw serve_missing (rw e refl), rw serve_missing (rw e refl))
    serve_at_once redirect e m known =
        (rw serve_missing (rw e refl), rw serve_missing (rw (e, append-nil) refl))
    serve_at_once async_redirect e m known =
        (rw serve_missing (rw e refl), rw serve_missing (rw e refl))
    serve_at_once nothing e m known =
        (rw serve_missing (rw e refl), rw serve_missing (rw (e, append-nil) refl))
    serve_at_once (unknown t) e m known = absurd (cc)

    -- A mode that is none of the five, which a mode file can hold at its top level: the request
    -- succeeds, and its answer is nil.
    pub serve_unknown :
        (t : Text)
        → match_mode p.df mod_path ≡ unknown t
        → serve p op read w mod_path ver ≡ (ok none, w)
    serve_unknown t m = rw serve_missing (rw m (unfold process_mode finish in refl))

-- A version that the storage does not find, in the async mode, is served once the stash that the request left
-- has run, if it is then in the storage under the version that was asked for.
pub info_after_async :
    {S : Type 0} (p : Opts S) (s : S) (mod_path ver : Text) (e : GoError) (a : Text)
    → p.storage.info s mod_path ver ≡ err e
    → kind e ≡ kind_not_found
    → match_mode p.df mod_path ≡ async
    → p.storage.info (p.stash s mod_path ver).1 mod_path ver ≡ ok a
    → (info p (run_jobs p (info p (record { store = s; jobs = [] }) mod_path ver).1) mod_path ver).0
      ≡ ok (some a)
unfolding info run_jobs
info_after_async p s mod_path ver e a missing gone m there =
    rw
      ((serve_at_once p _ p.storage.info (record { store = s; jobs = [] }) mod_path ver e missing
        gone async m (λ q. cc) refl).1)
      (unfold run_jobs_from in rw (there, serve) refl)
