-- ===== src/Paths.antt =====
-- pkg/paths: the path parameters of a request (path.go), and the decoding of the case-insensitive
-- form in which cmd/go sends module paths and versions (decode.go).
pub mod Decode
pub mod Glob
pub mod Pattern
mod Tests
use athens.Prelude.{
  ℕ, ◌+◌, ◌-◌, Bool, true, false, ◌&&◌, ◌||◌, Option, none, some, List, [], ◌∷◌, ◌++◌, ltb, leb,
  ◌==◌, nat_eq, text_eq, if◌then◌else◌, Text, text, lookup, is_empty,
}
use Glob.{glob}
use athens.Errors.{Result, ok, err, make_error, error_arg, string_arg}

-- One round of the loop of `decodeString` on the byte r: `none` for a `return "", false`, else what
-- is appended to the buffer and whether a '!' is pending. A byte of 128 or more starts no ASCII
-- rune, so the loop over runes fails there exactly where this loop over bytes does.
decode_byte : Bool → ℕ → Option (Text × Bool)
decode_byte bang r =
    if leb 128 r
    then none
    else if bang
    then (if ltb r b'a' || ltb b'z' r then none else some ((r + b'A' - b'a') ∷ [], false))
    else if r == b'!'
    then some ([], true)
    else if leb b'A' r && leb r b'Z'
    then none
    else some (r ∷ [], false)

decode_from : Text → Bool → Text → Option Text
unfolding decode_byte
decode_from buf true [] = none
decode_from buf false [] = some buf
decode_from buf bang (r ∷ rest) = elim (decode_byte bang r) [
  | none ↦ none
  | some (out, bang') ↦ decode_from (buf ++ out) bang' rest
]

unfoldable pub decode_string : Text → Option Text
unfolding decode_from
decode_string encoding = decode_from [] false encoding

-- `%q` of the message is left out: the message is the same for every invalid encoding.
unfoldable pub decode_path : Text → Result Text
decode_path encoding = elim (decode_string encoding) [
  | none ↦
      err (
        make_error (text "paths.DecodePath")
          (string_arg (text "invalid module path encoding") ∷ []))
  | some path ↦ ok path
]

-- mux.Vars(r): the variables that the router found, "" for a missing one.
abbrev pub Vars : Type 0
Vars = List (Text × Text)

abbrev pub get_var : Vars → Text → Text
get_var vars name = elim (lookup vars name) [ none ↦ [] | some v ↦ v ]

unfoldable pub get_module : Vars → Result Text
get_module vars =
    let mod_path = get_var vars (text "module") in
    if is_empty mod_path
    then err
        (make_error (text "paths.GetModule") (string_arg (text "missing module parameter") ∷ []))
    else decode_path mod_path

unfoldable pub get_version : Vars → Result Text
get_version vars =
    let version = get_var vars (text "version") in
    if is_empty version
    then err
        (make_error (text "paths.GetVersion") (string_arg (text "missing version parameter") ∷ []))
    else decode_path version

pub record AllPathParams : Type 0 where
  pub module_path : Text
  pub version : Text

unfoldable pub get_all_params : Vars → Result AllPathParams
get_all_params vars = elim (get_module vars) [
  | err e ↦ err (make_error (text "paths.GetAllParams") (error_arg e ∷ []))
  | ok mod_path ↦ elim (get_version vars) [
    | err e ↦ err (make_error (text "paths.GetAllParams") (error_arg e ∷ []))
    | ok version ↦ ok (record { module_path = mod_path; version = version })
  ]
]

-- strings.Count(s, "/"), and of any other byte.
unfoldable pub count_byte : ℕ → Text → ℕ
count_byte b [] = 0
count_byte b (c ∷ s) = if c == b then count_byte b s + 1 else count_byte b s

-- The loop of `MatchesPattern`: the part of the target before its slash number n + 1, and the
-- slashes that were not found.
unfoldable pub cut_prefix : ℕ → Text → Text × ℕ
cut_prefix n [] = ([], n)
cut_prefix n (c ∷ s) =
    let rest = cut_prefix (if c == b'/' then n - 1 else n) s in
    if c == b'/' && n == 0 then ([], 0) else (c ∷ rest.0, rest.1)

unfoldable pub matches_pattern : Text → Text → Bool
unfolding count_byte cut_prefix glob
matches_pattern pattern target =
    let found = cut_prefix (count_byte b'/' pattern) target in
    if ltb 0 found.1 then false else glob pattern found.0
