-- ===== src/Proxy/Serving.antt =====
-- From a request for a version that is not stored to its answer.
use athens.Prelude.{◌≡◌, ◌≢◌, refl, ap, ◌∙◌, ◌⊎◌, false, Option, none, some, List, Text, text}
use athens.Errors.{GoError, Result, ok, err}
use athens.Storage.{Version, exists}
use athens.Storage.Fs.{FileSystem, fs_info, fs_save, fs_exists}
use athens.Storage.Fs.RoundTrip.{fs_save-reads, fs_info-kind}
use athens.Stash.{Target, Stasher, stash, pool_stash, index_failure}
use athens.Stash.Plain.{stash_saved}
use athens.Download.Mode.{DownloadFile, match_mode, sync}
use athens.Download.Protocol.{RevInfo, World, info}
use athens.Download.Protocol.Downloads.{serve_sync}
use athens.Download.Handlers.{with_pool, pooled}
use athens.Proxy.{parts, proxy_stash, proxy_opts, proxy_protocol}

module _ {F I : Type 0} (fs : FileSystem F)
    (read_written : (f : F) (path content : Text)
      → (fs.write_file f path content).0 ≡ none
      → fs.read_file (fs.write_file f path content).1 path ≡ ok content)
    (read_kept : (f : F) (path content other : Text)
      → path ≢ other
      → (fs.write_file f path content).0 ≡ none
      → fs.read_file (fs.write_file f path content).1 other ≡ fs.read_file f other)
    (sized : (f : F) (path content : Text)
      → fs.read_file f path ≡ ok content
      → fs.stat f path ≡ none)
    (single_flight : Stasher F I → Stasher F I)
    (passes_on : (inner : Stasher F I) (t : Target F I) (m v r : Text)
      → (inner t m v).0 ≡ ok r
      → single_flight inner t m v ≡ inner t m v)
    (root : Text) (canonical : Text → Text) (fetch : Text → Text → Result Version)
    (index : I → Text → Text → Option GoError × I) (df : DownloadFile)
    (upstream : Text → Result (RevInfo × List Text)) (network_mode : Text) (w : World (Target F I))
    (mod_path ver : Text) (v : Version) where
  abbrev pub stashed : Target F I
  stashed = record {
    store = (fs_save fs root w.store.store mod_path v).1;
    lines = (index w.store.lines mod_path v.semver).1;
  }

  proxy_stash-saved :
      fetch mod_path ver ≡ ok v
      → (v.semver ≡ ver) ⊎ (fs_exists fs root w.store.store mod_path v.semver ≡ ok false)
      → (fs_save fs root w.store.store mod_path v).0 ≡ none
      → index_failure (index w.store.lines mod_path v.semver).0 ≡ none
      → proxy_stash fs root canonical fetch index single_flight w.store mod_path ver
        ≡ (ok v.semver, stashed)
  unfolding proxy_stash pool_stash exists
  proxy_stash-saved fetched new saved indexed =
      let plain =
        stash_saved (parts fs root canonical fetch index) w.store mod_path ver v fetched new saved
          indexed in
      let pooled_stash : pool_stash (stash (parts fs root canonical fetch index)) w.store mod_path
            ver
          ≡ (ok v.semver, stashed) =
        rw (pool_stash, plain) refl in
      passes_on _ w.store mod_path ver v.semver (ap (λ r. r.0) pooled_stash) ∙ pooled_stash

  -- The file system reads what was last written and gives its size, and the single flight passes a success on. A request
  -- for the info of a version that is not stored, with the sync mode: where the fetch gives a version
  -- that has the name that was asked for or is not stored, and the save and the index have no failure,
  -- the pooled protocol answers with the fetched info, and the version is in the storage and the index.
  pub info_fetched :
      (e : GoError)
      → fs_info fs root w.store.store mod_path ver ≡ err e
      → match_mode df mod_path ≡ sync
      → fetch mod_path ver ≡ ok v
      → (v.semver ≡ ver) ⊎ (fs_exists fs root w.store.store mod_path v.semver ≡ ok false)
      → (fs_save fs root w.store.store mod_path v).0 ≡ none
      → index_failure (index w.store.lines mod_path v.semver).0 ≡ none
      → (proxy_protocol fs root canonical fetch index single_flight df upstream network_mode).info w
          mod_path ver
        ≡ (ok (some v.info), record w { store = stashed })
  unfolding with_pool pooled info
  info_fetched e missing mode fetched new saved indexed =
      let done = proxy_stash-saved fetched new saved indexed in
      let (info_there, zip_there, mod_there) =
        fs_save-reads fs read_written read_kept sized root w.store.store mod_path v saved in
      let p = proxy_opts fs root canonical fetch index single_flight df upstream network_mode in
      let served =
        serve_sync p (text "protocol.Info") p.storage.info w mod_path ver e missing
          (fs_info-kind fs root w.store.store mod_path ver e missing) v.semver v.info mode
          (ap (λ r. r.0) done) (ap (λ r. p.storage.info r.1 mod_path v.semver) done ∙ info_there) in
      rw served (rw done refl)
