-- ===== src/Download/Handlers/Tests.antt =====
-- The theorems on the handlers at concrete inputs.
use athens.Prelude.{
  ◌≡◌, refl, ◌==◌, nat_eq, lookup, ◌++◌, false, List, [], ◌∷◌, text_eq, if◌then◌else◌, Text, text,
  contains, text_beq,
}
use athens.Errors.{
  GoError, Result, ok, make_error, error_arg, string_arg, kind_redirect, kind_not_found, kind,
}
use athens.Paths.{
  AllPathParams, get_all_params, get_module, get_version, decode_path, decode_string,
}
use athens.Download.Handlers.{
  new_protocol, status, body, aborted, Request, redirect_to, info_handler, zip_handler,
}
use athens.Download.Handlers.Statuses.{info_handler_at_once, handlers_unknown}
use athens.Download.Mode.{redirect, unknown, match_mode, url}
use athens.Download.Protocol.{Opts, World, strict}
use athens.Download.Protocol.Downloads.{answer_kind, leaves_job}
use athens.Download.Tests.{missing, names, with_mode, rev}

abbrev moved : Opts (List Text)
moved = record {
  df = record { mode = redirect; download_url = text "https://p.io"; paths = [] };
  storage = names;
  stash = λ s m v. (ok v, v ∷ s);
  upstream = λ m. ok (rev, []);
  network_mode = strict;
}

abbrev join_address : Text → Text → Result Text
join_address base path = ok (base ++ path)

abbrev request : Request
request = record {
  vars = (text "module", text "g.c/a") ∷ (text "version", text "v1") ∷ [];
  path = text "/g.c/a/@v/v1.info";
  is_head = false;
}

abbrev params : AllPathParams
params = record { module_path = text "g.c/a"; version = text "v1" }

abbrev empty_world : World (List Text)
empty_world = record { store = []; jobs = [] }

request_params : get_all_params request.vars ≡ ok params
unfolding get_all_params get_module get_version decode_path decode_string lookup text_beq
request_params = refl

not_found : kind missing ≡ kind_not_found
unfolding kind make_error
not_found = refl

info_handler_at_once_example :
    info_handler moved.df join_address (new_protocol moved) empty_world request ≡ (
      if answer_kind redirect == kind_redirect
          then redirect_to (λ e. e) (join_address (url moved.df (text "g.c/a")) request.path)
          else status kind_not_found,
      record empty_world {
        jobs = [] ++ (if leaves_job redirect then (text "g.c/a", text "v1") ∷ [] else []);
      },
    )
unfolding contains match_mode
info_handler_at_once_example =
    info_handler_at_once moved join_address empty_world request params request_params missing
      not_found redirect refl refl (λ e. cc) refl

abbrev bogus : Opts (List Text)
bogus = with_mode (unknown (text "bogus")) strict (ok (rev, []))

handlers_unknown_example :
    (info_handler bogus.df join_address (new_protocol bogus) empty_world request
      ≡ (body [], empty_world))
    × (zip_handler bogus.df join_address (new_protocol bogus) empty_world request
        ≡ (aborted, empty_world))
unfolding contains match_mode
handlers_unknown_example =
    handlers_unknown bogus join_address empty_world request params request_params missing not_found
      (text "bogus") refl refl refl

abbrev no_module : Request
no_module = record { vars = []; path = text "/@v/v1.info"; is_head = false }

abbrev no_params : GoError
no_params = make_error (text "paths.GetAllParams") (
    error_arg
      (make_error (text "paths.GetModule") (string_arg (text "missing module parameter") ∷ []))
    ∷ [])
