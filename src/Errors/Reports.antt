-- ===== src/Errors/Reports.antt =====
-- What is read off an error: its severity, the level that `Expect` gives it, its message and trace.
use athens.Prelude.{ℕ, ◌≡◌, refl, ◌≤◌, List, [], ◌∷◌, arith, Text, nat_eq, if◌then◌else◌, contains}
use athens.Errors.{
  GoError, plain, wrapped, made, Arg, error_arg, severity_arg, kind, severity, make_error, message,
  embedded_ops, expect, error_level, info_level,
}

abbrev pub last_severity : List Arg → ℕ → ℕ
last_severity [] s = s
last_severity (severity_arg a ∷ args) s = last_severity args a
last_severity (_ ∷ args) s = last_severity args s

-- Every error is reported at the error level or milder, so never as a panic or a fatal error.
error_level-le-severity : (e : GoError) → error_level ≤ severity e
unfolding severity
error_level-le-severity (plain m) = omega arith
error_level-le-severity (wrapped m e) = error_level-le-severity e
error_level-le-severity (made k o m v s e) = ground (arith, error_level-le-severity e)

-- `Expect` gives the info level exactly to the errors of one of the expected kinds.
expect_lem :
    (e : GoError) (ks : List ℕ)
    → expect e ks ≡ (if contains ks (kind e) then info_level else error_level)
unfolding expect contains
expect_lem e [] = refl
expect_lem e (k ∷ ks) = ground (arith, expect_lem e ks)

-- Wrapping with an operation alone (`errors.E(op, err)`) puts the operation in front of the trace,
-- and keeps the kind, the severity and the message.
pub make_error-error :
    (op : Text) (e : GoError)
    → (kind (make_error op (error_arg e ∷ [])) ≡ kind e)
      × (severity (make_error op (error_arg e ∷ [])) ≡ severity e)
      × (message (make_error op (error_arg e ∷ [])) ≡ message e)
      × (embedded_ops (make_error op (error_arg e ∷ [])) ≡ op ∷ embedded_ops e)
unfolding make_error kind severity message embedded_ops
make_error-error op e = (refl, refl, refl, refl)
