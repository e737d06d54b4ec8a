-- ===== src/Proxy.antt =====
-- cmd/proxy/actions/app_proxy.go: the parts put together, with the file system backend, the plain
-- stasher and the download protocol on one storage. The rest of that file makes clients and routes.
pub mod Serving
mod Tests
use athens.Prelude.{Bool, Option, none, some, List, [], ◌∷◌, Text}
use athens.Errors.{GoError, Result}
use athens.Storage.{Backend, Version}
use athens.Storage.Fs.{FileSystem, fs_backend}
use athens.Stash.{Target, Stasher, Parts, stash, pool_stash}
use athens.Download.Mode.{DownloadFile}
use athens.Download.Protocol.{Opts, RevInfo, World}
use athens.Download.Handlers.{Protocol, new_protocol, with_pool}

-- A backend that the stasher's target holds, beside the index.
abbrev pub on_target : {S I : Type 0} → Backend S → Backend (Target S I)
on_target b = record {
  list = λ t. b.list t.store;
  info = λ t. b.info t.store;
  go_mod = λ t. b.go_mod t.store;
  zip = λ t. b.zip t.store;
  save =
      λ t mod_path v. let done = b.save t.store mod_path v in (done.0, record t { store = done.1 });
  own_exists = elim b.own_exists as (λ _. Option (Target _ _ → Text → Text → Result Bool)) [
    | none ↦ none
    | some own ↦ some (λ t. own t.store)
  ];
}

module _ {F I : Type 0} (fs : FileSystem F) (root : Text) (canonical : Text → Text)
    (fetch : Text → Text → Result Version) (index : I → Text → Text → Option GoError × I) where
  abbrev pub parts : Parts F I
  parts = record { fetch = fetch; storage = fs_backend fs root canonical; index = index }

  -- `addProxyRoutes`: the stasher and the protocol share the storage; the wrapper that the
  -- configuration chooses lies around the pool of stashes.
  unfoldable pub proxy_stash : (Stasher F I → Stasher F I) → Stasher F I
  proxy_stash single_flight = single_flight (pool_stash (stash parts))

  abbrev pub proxy_opts :
      (Stasher F I → Stasher F I)
      → DownloadFile
      → (Text → Result (RevInfo × List Text))
      → Text
      → Opts (Target F I)
  proxy_opts single_flight df upstream network_mode = record {
    df = df;
    storage = on_target (fs_backend fs root canonical);
    stash = proxy_stash single_flight;
    upstream = upstream;
    network_mode = network_mode;
  }

  abbrev pub proxy_protocol :
      (Stasher F I → Stasher F I)
      → DownloadFile
      → (Text → Result (RevInfo × List Text))
      → Text
      → Protocol (World (Target F I))
  proxy_protocol single_flight df upstream network_mode =
      with_pool (new_protocol (proxy_opts single_flight df upstream network_mode))
