-- ===== src/Errors/Wrapping.antt =====
-- What `E` keeps of the error that it embeds: its kind, its severity and its trace.
use athens.Prelude.{
  ℕ, ◌≡◌, refl, Option, none, some, List, [], ◌∷◌, arith, Text, ◌==◌, nat_eq, if◌then◌else◌,
}
use athens.Errors.{
  GoError, plain, Arg, error_arg, string_arg, module_arg, version_arg, severity_arg, kind_arg,
  Error, kind, make_error, set_args, seal, blank, kind_unexpected,
}

-- What a list of arguments leaves in each field, read from its end.
abbrev pub last_kind : List Arg → ℕ → ℕ
last_kind [] k = k
last_kind (kind_arg a ∷ args) k = last_kind args a
last_kind (_ ∷ args) k = last_kind args k

abbrev pub last_error : List Arg → Option GoError → Option GoError
last_error [] e = e
last_error (error_arg a ∷ args) e = last_error args (some a)
last_error (string_arg a ∷ args) e = last_error args (some (plain a))
last_error (_ ∷ args) e = last_error args e

abbrev pub inner_kind : Option GoError → ℕ
inner_kind none = kind_unexpected
inner_kind (some e) = kind e

set_args-kind : (args : List Arg) (e : Error) → (set_args args e).kind ≡ last_kind args e.kind
unfolding set_args
set_args-kind [] e = refl
set_args-kind (error_arg a ∷ args) e = set_args-kind args _
set_args-kind (string_arg a ∷ args) e = set_args-kind args _
set_args-kind (module_arg a ∷ args) e = set_args-kind args _
set_args-kind (version_arg a ∷ args) e = set_args-kind args _
set_args-kind (severity_arg a ∷ args) e = set_args-kind args _
set_args-kind (kind_arg a ∷ args) e = set_args-kind args _

set_args-err : (args : List Arg) (e : Error) → (set_args args e).err ≡ last_error args e.err
unfolding set_args
set_args-err [] e = refl
set_args-err (error_arg a ∷ args) e = set_args-err args _
set_args-err (string_arg a ∷ args) e = set_args-err args _
set_args-err (module_arg a ∷ args) e = set_args-err args _
set_args-err (version_arg a ∷ args) e = set_args-err args _
set_args-err (severity_arg a ∷ args) e = set_args-err args _
set_args-err (kind_arg a ∷ args) e = set_args-err args _

kind-seal : (e : Error) → kind (seal e) ≡ (if e.kind == 0 then inner_kind e.err else e.kind)
unfolding kind seal
kind-seal e = ground arith

-- The kind of an error made by `E` is its last kind argument, unless that is missing or 0; then it
-- is the kind of its last error or string argument, and 500 where there is none.
pub kind-make_error :
    (op : Text) (args : List Arg)
    → kind (make_error op args)
      ≡ (if last_kind args 0 == 0 then inner_kind (last_error args none) else last_kind args 0)
unfolding make_error
kind-make_error op [] = unfold kind in refl
kind-make_error op (a ∷ args) = ground (
  arith,
  kind-seal (set_args (a ∷ args) (blank op)),
  set_args-kind (a ∷ args) (blank op),
  set_args-err (a ∷ args) (blank op),
)
