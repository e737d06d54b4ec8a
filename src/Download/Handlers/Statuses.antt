-- ===== src/Download/Handlers/Statuses.antt =====
-- Which status a client gets.
use athens.Prelude.{
  inl, inr, ◌≡◌, ◌≢◌, refl, true, Option, [], ◌∷◌, ◌++◌, ◌==◌, nat_eq, if◌then◌else◌, Text, text,
}
use athens.Errors.{
  Result-cases, GoError, Result, ok, err, make_error, kind, kind_not_found, kind_redirect, Fails,
}
use athens.Paths.{AllPathParams, get_all_params}
use athens.Download.Mode.{
  Mode, DownloadFile, url, match_mode, is_known, sync, async, redirect, async_redirect, nothing,
  unknown,
}
use athens.Download.Protocol.{Opts, World, info, zip}
use athens.Download.Protocol.Downloads.{serve_at_once, serve_unknown, answer_kind, leaves_job}
use athens.Download.Handlers.{
  Protocol, new_protocol, with_pool, pooled, status, body, aborted, Request, get_module_params,
  redirect_to, failure, info_answer, module_answer, zip_answer, info_handler, module_handler,
  zip_handler,
}

module _ (df : DownloadFile) (redirect_url : Text → Text → Result Text) where
  info_answer-pooled :
      (params : AllPathParams) (r : Request) (op : Text) (done : Result (Option Text))
      → info_answer df redirect_url params r (pooled op done)
        ≡ info_answer df redirect_url params r done
  unfolding info_answer failure pooled make_error kind
  info_answer-pooled params r op (ok bytes) = refl
  info_answer-pooled params r op (err e) = refl

  module_answer-pooled :
      (params : AllPathParams) (r : Request) (op : Text) (done : Result (Option Text))
      → module_answer df redirect_url params r (pooled op done)
        ≡ module_answer df redirect_url params r done
  unfolding module_answer failure pooled make_error kind
  module_answer-pooled params r op (ok bytes) = refl
  module_answer-pooled params r op (err e) = refl

  zip_answer-pooled :
      (params : AllPathParams) (r : Request) (op : Text) (done : Result (Option Text))
      → zip_answer df redirect_url params r (pooled op done)
        ≡ zip_answer df redirect_url params r done
  unfolding zip_answer failure pooled make_error kind
  zip_answer-pooled params r op (ok bytes) = refl
  zip_answer-pooled params r op (err e) = refl

  module _ {W : Type 0} (dp : Protocol W) (w : W) (r : Request) where
    info_handler-with_pool :
        info_handler df redirect_url (with_pool dp) w r ≡ info_handler df redirect_url dp w r
    unfolding with_pool info_handler
    info_handler-with_pool =
        elim (Result-cases (get_module_params r.vars (text "download.InfoHandler"))) [
          | inr (e, bad) ↦ rw (info_handler, bad) refl
          | inl (params, good) ↦ rw (info_handler, good, info_answer-pooled params r) refl
        ]

    module_handler-with_pool :
        module_handler df redirect_url (with_pool dp) w r ≡ module_handler df redirect_url dp w r
    unfolding with_pool module_handler
    module_handler-with_pool =
        elim (Result-cases (get_module_params r.vars (text "download.VersionModuleHandler"))) [
          | inr (e, bad) ↦ rw (module_handler, bad) refl
          | inl (params, good) ↦ rw (module_handler, good, module_answer-pooled params r) refl
        ]

    zip_handler-with_pool :
        zip_handler df redirect_url (with_pool dp) w r ≡ zip_handler df redirect_url dp w r
    unfolding with_pool zip_handler
    zip_handler-with_pool =
        elim (Result-cases (get_module_params r.vars (text "download.ZipHandler"))) [
          | inr (e, bad) ↦ rw (zip_handler, bad) refl
          | inl (params, good) ↦ rw (zip_handler, good, zip_answer-pooled params r) refl
        ]

    -- The pool of workers changes no answer to a request for a version, nor what it does to the
    -- state: the handlers answer with a pooled protocol as with the protocol itself.
    pub handlers-with_pool :
        (info_handler df redirect_url (with_pool dp) w r ≡ info_handler df redirect_url dp w r)
        × (module_handler df redirect_url (with_pool dp) w r
            ≡ module_handler df redirect_url dp w r)
        × (zip_handler df redirect_url (with_pool dp) w r ≡ zip_handler df redirect_url dp w r)
    handlers-with_pool = (info_handler-with_pool, module_handler-with_pool, zip_handler-with_pool)

    -- A request for a version whose module or version is missing or badly encoded is answered with
    -- 400, and the protocol is not asked.
    handlers_bad_path :
        (e : GoError)
        → get_all_params r.vars ≡ err e
        → (info_handler df redirect_url dp w r ≡ (status 400, w))
          × (module_handler df redirect_url dp w r ≡ (status 400, w))
          × (zip_handler df redirect_url dp w r ≡ (status 400, w))
    unfolding make_error kind info_handler get_module_params module_handler zip_handler
    handlers_bad_path e bad = (
      rw (info_handler, get_module_params, bad) refl,
      rw (module_handler, get_module_params, bad) refl,
      rw (zip_handler, get_module_params, bad) refl,
    )

module _ {S : Type 0} (p : Opts S) (redirect_url : Text → Text → Result Text) (w : World S)
    (r : Request) (params : AllPathParams) (good : get_all_params r.vars ≡ ok params) (e : GoError)
    (gone : kind e ≡ kind_not_found) where
  failed_answer :
      (m : Mode) (done : Result (Option Text))
      → Fails done (answer_kind m)
      → info_answer p.df redirect_url params r done ≡ (
          if answer_kind m == kind_redirect
          then redirect_to (λ e'. e') (redirect_url (url p.df params.module_path) r.path)
          else status kind_not_found)
  unfolding info_answer failure
  failed_answer m (ok bytes) h = absurd h
  failed_answer sync (err e') h = rw h refl
  failed_answer async (err e') h = rw h refl
  failed_answer redirect (err e') h = rw h refl
  failed_answer async_redirect (err e') h = rw h refl
  failed_answer nothing (err e') h = rw h refl
  failed_answer (unknown t) (err e') h = rw h refl

  -- A request for the info of a version that is not stored, in a known mode other than sync: in the
  -- redirecting modes the client is sent with 301 to the address that getRedirectURL makes, or gets
  -- the status of its error, and in the other modes it gets 404; the storage stays as it is, and the
  -- asynchronous modes leave the stash to run later.
  pub info_handler_at_once :
      (m : Mode)
      → p.storage.info w.store params.module_path params.version ≡ err e
      → match_mode p.df params.module_path ≡ m
      → m ≢ sync
      → is_known m ≡ true
      → info_handler p.df redirect_url (new_protocol p) w r ≡ (
        if answer_kind m == kind_redirect
            then redirect_to (λ e'. e') (redirect_url (url p.df params.module_path) r.path)
            else status kind_not_found,
        record w {
          jobs = w.jobs ++ (if leaves_job m then (params.module_path, params.version) ∷ [] else []);
        },
      )
  unfolding info info_handler get_module_params
  info_handler_at_once m missing mode other known =
      let (fails, after) =
        serve_at_once p (text "protocol.Info") p.storage.info w params.module_path params.version e
          missing gone m mode other known in
      rw (info_handler, get_module_params, good, after, failed_answer m _ fails) refl

  -- In a mode that is none of the five, a request for the info of a version that is not stored gets an
  -- empty body with the status 200, and one for its archive panics.
  pub handlers_unknown :
      (t : Text)
      → p.storage.info w.store params.module_path params.version ≡ err e
      → p.storage.zip w.store params.module_path params.version ≡ err e
      → match_mode p.df params.module_path ≡ unknown t
      → (info_handler p.df redirect_url (new_protocol p) w r ≡ (body [], w))
        × (zip_handler p.df redirect_url (new_protocol p) w r ≡ (aborted, w))
  unfolding info_answer zip_answer info zip info_handler zip_handler get_module_params
  handlers_unknown t no_info no_zip mode = (
    rw
        (
          info_handler,
          get_module_params,
          good,
          serve_unknown p _ p.storage.info w params.module_path params.version e no_info gone t
              mode,
        )
        refl,
    rw
        (
          zip_handler,
          get_module_params,
          good,
          serve_unknown p _ p.storage.zip w params.module_path params.version e no_zip gone t mode,
        )
        refl,
  )
