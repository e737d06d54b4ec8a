-- ===== src/Download/Handlers.antt =====
-- pkg/download: the handlers of cmd/go's requests (list.go, latest.go, version_info.go,
-- version_module.go, version_zip.go), and the pool of workers around the protocol (addons). The
-- library net/url with path.Join is a parameter, and so is encoding/json; the log is left out.
pub mod Statuses
mod Tests
use athens.Prelude.{
  ℕ, Bool, true, false, Option, none, some, List, [], ◌∷◌, ◌++◌, ◌==◌, nat_eq, if◌then◌else◌, Text,
  text, length, ltb,
}
use athens.Errors.{
  GoError, Result, ok, err, make_error, error_arg, kind_arg, module_arg, version_arg, severity_arg,
  kind, expect, kind_bad_request, kind_not_found, kind_redirect,
}
use athens.Paths.{Vars, AllPathParams, get_module, get_all_params}
use athens.Download.Mode.{DownloadFile, url}
use athens.Download.Protocol.{Opts, World, RevInfo, list, latest, info, go_mod, zip}

-- The interface `Protocol`; the state W is what its operations work on. A nil value is `none`.
pub record Protocol (W : Type 0) : Type 0 where
  pub list : W → Text → Result (List Text)
  pub latest : W → Text → Result RevInfo
  pub info : W → Text → Text → Result (Option Text) × W
  pub go_mod : W → Text → Text → Result (Option Text) × W
  pub zip : W → Text → Text → Result (Option Text) × W

-- The protocol of pkg/download, which `New` makes.
abbrev pub new_protocol : {S : Type 0} → Opts S → Protocol (World S)
new_protocol p = record {
  list = λ w. list p w.store;
  latest = λ w. latest p;
  info = info p;
  go_mod = go_mod p;
  zip = zip p;
}

-- addons/with_pool.go: a worker runs the operation, and the caller waits for it.
unfoldable pub pooled : {A : Type 0} → Text → Result A → Result A
pooled op (ok a) = ok a
pooled op (err e) = err (make_error op (error_arg e ∷ []))

unfoldable pub with_pool : {W : Type 0} → Protocol W → Protocol W
unfolding pooled
with_pool dp = record {
  list = λ w mod_path. pooled (text "pool.List") (dp.list w mod_path);
  latest = λ w mod_path. pooled (text "pool.Latest") (dp.latest w mod_path);
  info = λ w mod_path ver.
      let done = dp.info w mod_path ver in (pooled (text "pool.Info") done.0, done.1);
  go_mod = λ w mod_path ver.
      let done = dp.go_mod w mod_path ver in (pooled (text "pool.GoMod") done.0, done.1);
  zip = λ w mod_path ver.
      let done = dp.zip w mod_path ver in (pooled (text "pool.Zip") done.0, done.1);
}

-- What the client gets: a status without a body, a body with the status 200, the archive with its
-- Content-Length, a redirect with its status and address, or a closed connection, where the handler
-- panics.
pub data Response : Type 0 where
  status : ℕ → Response
  body : Text → Response
  archive : Option ℕ → Text → Response
  redirected : ℕ → Text → Response
  aborted : Response

-- What the handlers read of a request: the variables of the router, `r.URL.Path`, and whether the
-- method is HEAD.
pub record Request : Type 0 where
  pub vars : Vars
  pub path : Text
  pub is_head : Bool

unfoldable pub get_module_params : Vars → Text → Result AllPathParams
get_module_params vars op = elim (get_all_params vars) [
  | err e ↦ err (make_error op (error_arg e ∷ kind_arg kind_bad_request ∷ []))
  | ok params ↦ ok params
]

unfoldable pub join_lines : List Text → Text
join_lines [] = []
join_lines (v ∷ []) = v
join_lines (v ∷ w ∷ versions) = v ++ b'\n' ∷ join_lines (w ∷ versions)

-- `w.Write(info)`: nil writes nothing.
abbrev written : Option Text → Response
written none = body []
written (some bytes) = body bytes

-- `zip.Size()` of a nil reader panics. The size of a reader is that of its content.
abbrev sent_archive : Bool → Option Text → Response
sent_archive is_head none = aborted
sent_archive is_head (some bytes) =
    archive (if ltb 0 (length bytes) then some (length bytes) else none)
      (if is_head then [] else bytes)

expected_level : GoError → ℕ
expected_level e = expect e (kind_not_found ∷ kind_redirect ∷ [])

module _ {W : Type 0} (dp : Protocol W) (encode : RevInfo → Text) where
  pub list_handler : W → Request → Response
  unfolding join_lines
  list_handler w r = elim (get_module r.vars) [
    | err e ↦ status 500
    | ok mod_path ↦ elim (dp.list w mod_path) [
      | err e ↦ status (
          kind (
            make_error (text "download.ListHandler")
              (error_arg e ∷ severity_arg (expect e (kind_not_found ∷ [])) ∷ [])))
      | ok versions ↦ body (join_lines versions)
    ]
  ]

  pub latest_handler : W → Request → Response
  latest_handler w r = elim (get_module r.vars) [
    | err e ↦ status 500
    | ok mod_path ↦ elim (dp.latest w mod_path) [
      | err e ↦ status (
          kind (
            make_error (text "download.LatestHandler")
              (error_arg e ∷ severity_arg (expect e (kind_not_found ∷ [])) ∷ [])))
      | ok rev ↦ body (encode rev)
    ]
  ]

-- The answer to a redirect: `wrap` is what the handler makes of an error of getRedirectURL.
abbrev pub redirect_to : (GoError → GoError) → Result Text → Response
redirect_to wrap (err e) = status (kind (wrap e))
redirect_to wrap (ok address) = redirected kind_redirect address

-- `getRedirectURL` is the parameter redirect_url.
module _ (df : DownloadFile) (redirect_url : Text → Text → Result Text) where
  -- The end of the three handlers at an error of the protocol.
  failure : (GoError → GoError) → Text → Request → GoError → Response
  failure wrap mod_path r e =
      if kind e == kind_redirect
      then redirect_to wrap (redirect_url (url df mod_path) r.path)
      else status (kind e)

  -- After the status of an error, the handler writes the bytes, which are nil then.
  info_answer : AllPathParams → Request → Result (Option Text) → Response
  unfolding failure
  info_answer params r (err e) = failure (λ e'. e') params.module_path r e
  info_answer params r (ok bytes) = written bytes

  module_answer : AllPathParams → Request → Result (Option Text) → Response
  unfolding failure expected_level
  module_answer params r (err e) =
      let op = text "download.VersionModuleHandler" in
      failure
        (λ e'.
          make_error op
            (module_arg params.module_path ∷ version_arg params.version ∷ error_arg e' ∷ []))
        params.module_path r (make_error op (error_arg e ∷ severity_arg (expected_level e) ∷ []))
  module_answer params r (ok bytes) = written bytes

  zip_answer : AllPathParams → Request → Result (Option Text) → Response
  unfolding failure expected_level
  zip_answer params r (err e) =
      failure (λ e'. e') params.module_path r
        (make_error (text "download.ZipHandler")
          (error_arg e ∷ severity_arg (expected_level e) ∷ []))
  zip_answer params r (ok bytes) = sent_archive r.is_head bytes

  module _ {W : Type 0} (dp : Protocol W) where
    pub info_handler : W → Request → Response × W
    unfolding info_answer
    info_handler w r = elim (get_module_params r.vars (text "download.InfoHandler")) [
      | err e ↦ (status (kind e), w)
      | ok params ↦
          let done = dp.info w params.module_path params.version in
          (info_answer params r done.0, done.1)
    ]

    pub module_handler : W → Request → Response × W
    unfolding module_answer
    module_handler w r =
        let op = text "download.VersionModuleHandler" in
        elim (get_module_params r.vars op) [
          | err e ↦
              (status (kind (make_error op (module_arg [] ∷ version_arg [] ∷ error_arg e ∷ []))), w)
          | ok params ↦
              let done = dp.go_mod w params.module_path params.version in
              (module_answer params r done.0, done.1)
        ]

    pub zip_handler : W → Request → Response × W
    unfolding zip_answer
    zip_handler w r = elim (get_module_params r.vars (text "download.ZipHandler")) [
      | err e ↦ (status (kind e), w)
      | ok params ↦
          let done = dp.zip w params.module_path params.version in
          (zip_answer params r done.0, done.1)
    ]
