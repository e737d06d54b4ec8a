-- ===== src/Index.antt =====
-- pkg/index: the index of the versions that were stashed, with when. This file is the index in memory
-- (pkg/index/mem/mem.go) and the handler that reads an index (cmd/proxy/actions/index.go). A time is a
-- number of nanoseconds; the zero time of Go is 0.
pub mod Mem
mod Tests
use athens.Prelude.{
  ℕ, ◌-◌, ◌+◌, Bool, true, false, ◌&&◌, ◌||◌, Option, none, some, List, [], ◌∷◌, ◌++◌, ◌==◌,
  text_eq, if◌then◌else◌, Text, text, is_empty, leb, ltb,
}
use athens.Errors.{
  GoError, plain, Result, ok, err, make_error, error_arg, string_arg, kind_arg, severity_arg, kind,
  kind_already_exists, kind_bad_request, info_level,
}
use athens.Filter.Qualifiers.{atoi, int_zero}

pub record Line : Type 0 where
  pub path : Text
  pub version : Text
  pub timestamp : ℕ

unfoldable pub is_indexed : List Line → Text → Text → Bool
is_indexed [] mod_path ver = false
is_indexed (l ∷ lines) mod_path ver =
    let later = is_indexed lines mod_path ver in (l.path == mod_path && l.version == ver) || later

-- `Index` at the time now.
unfoldable pub index : ℕ → List Line → Text → Text → Option GoError × List Line
unfolding is_indexed
index now lines mod_path ver =
    if is_indexed lines mod_path ver
    then (
      some (
          make_error (text "mem.Index") (
            string_arg (mod_path ++ text "@" ++ ver ++ text " already indexed")
            ∷ kind_arg kind_already_exists
            ∷ [])),
      lines,
    )
    else (none, lines ++ record { path = mod_path; version = ver; timestamp = now } ∷ [])

-- The loop of `Lines` with its count.
unfoldable pub lines_from : ℕ → ℕ → ℕ → List Line → List Line
lines_from since limit count [] = []
lines_from since limit count (line ∷ rest) =
    let passed = lines_from since limit count rest in
    let taken = lines_from since limit (count + 1) rest in
    if leb limit count then [] else if ltb line.timestamp since then passed else line ∷ taken

unfoldable pub lines : ℕ → ℕ → List Line → List Line
unfolding lines_from
lines since limit all = lines_from since limit 0 all

-- `getIndexLines`: the values of the form, the parser of times, and `Lines` of the index. A nil error
-- that is passed to `E` is no argument.
unfoldable pub limit_of : Text → Result ℕ
limit_of limit_str = if is_empty limit_str then ok 2000 else elim (atoi limit_str) [
  | none ↦ err (
      make_error (text "actions.IndexHandler") (
        error_arg (plain (text "strconv.Atoi"))
        ∷ kind_arg kind_bad_request
        ∷ severity_arg info_level
        ∷ []))
  | some n ↦
      if leb n int_zero
      then err (
          make_error (text "actions.IndexHandler")
            (kind_arg kind_bad_request ∷ severity_arg info_level ∷ []))
      else ok (n - int_zero)
]

unfoldable pub since_of : (Text → Result ℕ) → Text → Result ℕ
since_of parse since_str = if is_empty since_str then ok 0 else elim (parse since_str) [
  | err e ↦ err (
      make_error (text "actions.IndexHandler")
        (error_arg e ∷ kind_arg kind_bad_request ∷ severity_arg info_level ∷ []))
  | ok since ↦ ok since
]

unfoldable pub get_index_lines :
    (Text → Result ℕ) → (ℕ → ℕ → Result (List Line)) → Text → Text → Result (List Line)
unfolding limit_of since_of
get_index_lines parse read limit_str since_str = elim (limit_of limit_str) [
  | err e ↦ err e
  | ok limit ↦ elim (since_of parse since_str) [
    | err e ↦ err e
    | ok since ↦ elim (read since limit) [
      | err e ↦ err (make_error (text "actions.IndexHandler") (error_arg e ∷ []))
      | ok found ↦ ok found
    ]
  ]
]
