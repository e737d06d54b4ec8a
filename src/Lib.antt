-- ===== src/Lib.antt =====
-- Athens, a proxy for Go modules, and the scripts of its documentation site.
--
-- The proxy answers the requests of the go command from a storage, and takes what is missing from
-- upstream. A request passes the guards (Middleware), which know the rules of the filter file
-- (Filter) and read the module and the version from the address (Paths). The download protocol
-- (Download) then reads the storage (Storage); on a missing version it looks at the download mode
-- of the module, and stashes the version (Stash) at once, in the background, or not at all. All
-- parts report failures as errors with a kind (Errors), on which the callers decide. The scripts
-- of the site (Site) stand alone.
--
-- Which file models what, with paths from the root of the repository:
--   Prelude          the shared types and lemmas; no code of the repository
--   Errors           pkg/errors: E, Kind, Is, Severity, Expect and Ops as make_error, kind, is,
--                    severity, expect and embedded_ops; an error is a chain of values with the
--                    operation, kind, module and version that each link may have
--   Paths            pkg/paths: decode.go as decode_string and decode_path, path.go as get_module,
--                    get_version, get_all_params and matches_pattern; Paths/Glob is path.Match of
--                    Go
--   Storage          pkg/storage: the operations of a backend as a record, and the checker;
--                    Storage/Fs is the backend of pkg/storage/fs (Save, Info, GoMod, Zip, Exists,
--                    List and Delete as fs_save, fs_info and so on) over a file system with laws;
--                    Storage/Catalog is the catalog of pkg/storage/fs/cataloger.go and its handler
--                    in cmd/proxy/actions/catalog.go; Storage/Parallel is Upload and Delete of
--                    pkg/storage/module, with PackageVersionedName of pkg/config/module.go;
--                    Storage/Objects is the catalogs of pkg/storage/gcp and azureblob with
--                    ModuleVersionFromPath of pkg/config/module.go, and Storage/Objects/Rounds the
--                    one of pkg/storage/s3, whose loop has fuel: one round more than versions are
--                    asked for is enough where every page but the last lists one
--   Index            pkg/index/mem and the reading of requests in cmd/proxy/actions/index.go
--   Download         pkg/download/mode in Download/Mode (NewFile, validate, Match, URL) and
--                    pkg/download/protocol.go in Download/Protocol (List, Latest, Info, GoMod, Zip
--                    and processDownload as list, latest, info, go_mod, zip and process_download;
--                    info, go_mod and zip share serve), Download/Versions (union,
--                    removePseudoVersions), and Download/Handlers (the handlers of list.go,
--                    latest.go, version_info.go, version_module.go and version_zip.go, and
--                    addons/with_pool.go)
--   Stash            pkg/stash: stasher.go, with_pool.go, with_gcs.go, with_redis.go and
--                    with_etcd.go as functions from a target (storage and index) to a result and a
--                    target; Stash/Leases is with_azureblob.go over the sequence of the events of
--                    its loops; Stash/Flight is with_singleflight.go as a step relation
--   Filter           pkg/module/filter.go: the tree of rules in Filter, matches in
--                    Filter/Qualifiers, initFromConfig in Filter/Config
--   Fetching         pkg/module: go_get_fetcher.go and zip_read_closer.go as fetch,
--                    download_module, clear_files and close_zip over a disk with temporary
--                    directories; Fetching/Listing is go_vcs_lister.go
--   Config           pkg/config/config.go: EnvList, envOverride, ensurePortFormat, checkFilePerms,
--                    validateConfig, ParseConfigFile and Load
--   Middleware       pkg/middleware/filter.go and validation.go, cmd/proxy/actions/basicauth.go and
--                    sumdb.go, and the order of the guards in app.go
--   Proxy            cmd/proxy/actions/app_proxy.go: the stasher, the backend and the protocol put
--                    together as addProxyRoutes does it
--   Site             docs/themes/hugo-theme-learn/static/js: learn.js, search.js and hugo-learn.js:
--                    jQuery.highlight and jQuery.fn.highlight in Highlight, jQuery.fn.unhighlight
--                    in Unhighlight, the search input and the search of a ready page in SearchBox,
--                    switchTab and restoreTabSelections in Tabs, the sidebar in Panels, debounce in
--                    Debounce, anchorScrolls and fallbackMessage in Links/Anchors, getUrlParameter
--                    and endsWith in Links, initLunr in LunrIndex, renderItem in Suggestions, the
--                    clipboard in Clipboard, the keys in Keyboard, the visited pages in Visited,
--                    the links and diagrams of a page in Headings, getScrollBarWidth and
--                    setMenuHeight in Layout
--
-- State and concurrency. The storage, the index and the lock servers are states that the
-- operations take and give back. A background stash is a job in the state of the protocol, which
-- run_jobs runs. In the single flight the bodies under the mutex are the steps; calls, stashes
-- and deliveries of any number of callers interleave freely. In Upload and Delete each operation
-- on a channel is a step of its goroutine, the timeout is one, and the calls of the backend are
-- atomic. The events of a browser page (clicks, timers, input) are explicit sequences of events.
--
-- Bounds. Loops are structural recursion; the one that needs fuel is the marking of a text, where
-- the length of the text bounds the number of matches, each of which takes at least one
-- character. A Go int of a version segment is its value plus 2 ^ 63, and numbers that do not fit
-- are errors. Texts are lists of bytes in the Go parts and of UTF-16 code units in the scripts.
-- path.Match, the trimming of spaces and the comparison of letters without case are modelled on
-- ASCII.
--
-- Parameters. The file system (afero.Fs), base64 and the HCL decoder in NewFile; the backend, the
-- lister and the stasher in the protocol; the fetcher, the backend, the index and the answers of
-- the lock servers in the stash; the webhook in the validation; net/url and encoding/json in the
-- handlers; the functions of the object store in Upload and Delete and its listing in the
-- catalogs; afero, the go command and encoding/json in Fetching; the decoder of the file,
-- envconfig, the validator and the environment in Config; the layout of a page, encodeURI, the
-- comparison of stored texts with 1, and lunr in the scripts. Contexts, traces, the other
-- timeouts and log lines are left out, and so are the texts of error messages where they quote
-- their input.
--
-- Not modelled: the routing, the other backends of the storage, the indexes in databases, the
-- defaults and the tags of the configuration, and the environment of the go command. Of the
-- scripts: the calls that only start a library (perfectScrollbar, sticky, featherlight), the
-- fading of the progress list and the class of the links in the bar. The libraries beside the
-- scripts are copies of other projects.
pub mod Prelude
pub mod Errors
pub mod Paths
pub mod Storage
pub mod Download
pub mod Stash
pub mod Fetching
pub mod Index
pub mod Filter
pub mod Middleware
pub mod Config
pub mod Proxy
pub mod Site
