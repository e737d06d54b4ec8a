-- ===== src/Errors.antt =====
-- pkg/errors/errors.go, kinds.go and gocmd.go: the error type of the proxy, its constructor `E` and
-- what is read off an error. An error is a value of `GoError`; the Go type `error` may also be nil,
-- which is `none` of `Option GoError`, and a call that returns `(x, err)` returns a `Result`.
-- Kinds are HTTP status codes and 0 for none; severities are logrus levels, with 0 for none.
pub mod Wrapping
pub mod Reports
mod Tests
use athens.Prelude.{
  ℕ, zero, suc, ◌≡◌, refl, ◌⊎◌, inl, inr, Bool, true, false, ◌||◌, Option, none, some, List, [],
  ◌∷◌, ltb, ◌==◌, nat_eq, text_eq, if◌then◌else◌, Text, text, lookup,
}

abbrev pub kind_not_found : ℕ
kind_not_found = 404

abbrev pub kind_bad_request : ℕ
kind_bad_request = 400

abbrev pub kind_unexpected : ℕ
kind_unexpected = 500

abbrev pub kind_already_exists : ℕ
kind_already_exists = 409

abbrev pub kind_rate_limit : ℕ
kind_rate_limit = 429

abbrev pub kind_not_implemented : ℕ
kind_not_implemented = 501

abbrev pub kind_redirect : ℕ
kind_redirect = 301

-- logrus.Level: a smaller number is more severe.
abbrev pub error_level : ℕ
error_level = 2

abbrev pub info_level : ℕ
info_level = 4

-- `plain` is an error of another package that wraps nothing, `wrapped` one that wraps another
-- (fmt.Errorf with %w), and `made` a value of this package's struct `Error`: its kind, op, module,
-- version, severity and embedded error. `E` is its only maker and always sets the last.
pub data GoError : Type 0 where
  plain : Text → GoError
  wrapped : Text → GoError → GoError
  made : ℕ → Text → Text → Text → ℕ → GoError → GoError

pub data Result {ℓ} (A : Type ℓ) : Type ℓ where
  ok : A → Result A
  err : GoError → Result A

pub Result-cases {ℓ} :
    {A : Type ℓ} (r : Result A) → ((a : A) × (r ≡ ok a)) ⊎ ((e : GoError) × (r ≡ err e))
Result-cases (ok a) = inl (a, refl)
Result-cases (err e) = inr (e, refl)

-- What `E` takes behind the operation.
pub data Arg : Type 0 where
  error_arg : GoError → Arg
  string_arg : Text → Arg
  module_arg : Text → Arg
  version_arg : Text → Arg
  severity_arg : ℕ → Arg
  kind_arg : ℕ → Arg

-- The struct while `E` fills it in: `err` may still be nil.
pub record Error : Type 0 where
  pub kind : ℕ
  pub op : Text
  pub module_path : Text
  pub version : Text
  pub err : Option GoError
  pub severity : ℕ

-- The message, from which `IsRepoNotFoundErr` reads.
unfoldable pub message : GoError → Text
message (plain m) = m
message (wrapped m e) = m
message (made k o m v s e) = message e

unfoldable pub kind : GoError → ℕ
kind (plain m) = kind_unexpected
kind (wrapped m e) = kind e
kind (made k o m v s e) = if k == 0 then kind e else k

-- The call fails with an error of this kind.
abbrev pub Fails {ℓ} : {A : Type ℓ} → Result A → ℕ → Type 0
Fails (ok a) k = ⊥
Fails (err e) k = kind e ≡ k

-- `Is(err, kind)`, where err may be nil.
unfoldable pub is : Option GoError → ℕ → Bool
unfolding kind
is none k = false
is (some e) k = kind e == k

unfoldable pub is_not_found_err : GoError → Bool
unfolding kind
is_not_found_err e = kind e == kind_not_found

unfoldable pub severity : GoError → ℕ
severity (plain m) = error_level
severity (wrapped m e) = severity e
severity (made k o m v s e) = if ltb s error_level then severity e else s

unfoldable pub expect : GoError → List ℕ → ℕ
expect e [] = error_level
expect e (k ∷ ks) = if kind e == k then info_level else expect e ks

-- http.StatusText at the kinds that this program uses, and 403; other codes have no text here.
status_text : ℕ → Text
status_text code =
    if code == 404
    then text "Not Found"
    else if code == 400
    then text "Bad Request"
    else if code == 500
    then text "Internal Server Error"
    else if code == 409
    then text "Conflict"
    else if code == 429
    then text "Too Many Requests"
    else if code == 501
    then text "Not Implemented"
    else if code == 301
    then text "Moved Permanently"
    else if code == 403
    then text "Forbidden"
    else []

unfoldable pub set_arg : Arg → Error → Error
set_arg (error_arg a) e = record e { err = some a }
set_arg (string_arg a) e = record e { err = some (plain a) }
set_arg (module_arg a) e = record e { module_path = a }
set_arg (version_arg a) e = record e { version = a }
set_arg (severity_arg a) e = record e { severity = a }
set_arg (kind_arg a) e = record e { kind = a }

unfoldable pub set_args : List Arg → Error → Error
unfolding set_arg
set_args [] e = e
set_args (a ∷ args) e = set_args args (set_arg a e)

-- `KindText(e)` of an error that embeds nothing yet.
kind_text : Error → Text
unfolding status_text
kind_text e = status_text (if e.kind == 0 then kind_unexpected else e.kind)

-- The end of `E`: the missing error is made from the kind.
unfoldable pub seal : Error → GoError
unfolding kind_text
seal e = elim e.err [
  | some inner ↦ made e.kind e.op e.module_path e.version e.severity inner
  | none ↦ made e.kind e.op e.module_path e.version e.severity (plain (kind_text e))
]

abbrev pub blank : Text → Error
blank op = record { kind = 0; op = op; module_path = []; version = []; err = none; severity = 0 }

-- With no arguments the message of the real error names the caller's file and line.
unfoldable pub make_error : Text → List Arg → GoError
unfolding set_args seal
make_error op [] = made 0 op [] [] 0 (plain (text "errors.E called with 0 args"))
make_error op (a ∷ args) = seal (set_args (a ∷ args) (blank op))

-- The loop of `Ops`: it stops at the first embedded error that is not of this package.
unfoldable pub embedded_ops : GoError → List Text
embedded_ops (made k o m v s e) = o ∷ embedded_ops e
embedded_ops _ = []

-- The kinds of `strings.Contains` and of the prefix test that the program uses.
unfoldable pub has_prefix : Text → Text → Bool
has_prefix s [] = true
has_prefix [] (p ∷ ps) = false
has_prefix (c ∷ s) (p ∷ ps) = if c == p then has_prefix s ps else false

unfoldable pub contains_text : Text → Text → Bool
unfolding has_prefix
contains_text [] sub = has_prefix [] sub
contains_text (c ∷ s) sub = has_prefix (c ∷ s) sub || contains_text s sub

unfoldable pub is_repo_not_found_err : GoError → Bool
unfolding message contains_text
is_repo_not_found_err e = contains_text (message e) (text "remote: Repository not found")
