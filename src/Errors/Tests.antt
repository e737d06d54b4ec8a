-- ===== src/Errors/Tests.antt =====
-- The theorems on errors at concrete inputs.
use athens.Prelude.{◌≡◌, refl, List, [], ◌∷◌, none, text, if◌then◌else◌, ◌==◌, nat_eq}
use athens.Errors.{
  GoError, Arg, wrapped, make_error, kind, kind_arg, error_arg, string_arg, kind_not_found,
  kind_redirect,
}
use athens.Errors.Wrapping.{last_kind, last_error, inner_kind, kind-make_error}

abbrev inner : GoError
inner = wrapped (text "while listing") (make_error (text "fs.Info") (kind_arg kind_not_found ∷ []))

abbrev sample_args : List Arg
sample_args = error_arg inner ∷ kind_arg kind_redirect ∷ []

kind-make_error_example : kind (make_error (text "x") sample_args) ≡ (
    if last_kind sample_args 0 == 0
    then inner_kind (last_error sample_args none)
    else last_kind sample_args 0)
kind-make_error_example = kind-make_error (text "x") sample_args

inner_kind_is_kept :
    kind (
      make_error (text "x") (error_arg inner ∷ string_arg (text "not this") ∷ error_arg inner ∷ []))
    ≡ 404
unfolding kind make_error
inner_kind_is_kept = refl
