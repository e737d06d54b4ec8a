-- ===== src/Storage/Catalog.antt =====
-- pkg/storage/fs/cataloger.go and cmd/proxy/actions/catalog.go: the list of all stored versions, in
-- pages. The walk of the file tree is the list of the modules and versions of its ".info" files, in the
-- order in which it meets them; that the tree can be read is taken as given.
pub mod Pages
use athens.Prelude.{
  ℕ, ◌-◌, Bool, true, false, ◌&&◌, not, Option, none, some, List, [], ◌∷◌, ◌++◌, ◌==◌, nat_eq,
  if◌then◌else◌, Text, text, is_empty, split, ltb,
}
use athens.Errors.{
  GoError, Result, ok, err, plain, make_error, error_arg, string_arg, kind_arg, kind,
  kind_bad_request,
}
use athens.Paths.{AllPathParams}
use athens.Filter.Qualifiers.{atoi, int_zero}

-- `<` of Go on strings.
unfoldable pub text_lt : Text → Text → Bool
text_lt s [] = false
text_lt [] (d ∷ t) = true
text_lt (c ∷ s) (d ∷ t) = if c == d then text_lt s t else ltb c d

unfoldable pub token_from_mod_ver : Text → Text → Text
token_from_mod_ver mod_path version = mod_path ++ text "|" ++ version

abbrev two_values : List Text → Result (Text × Text)
two_values (mod_path ∷ version ∷ more) = ok (mod_path, version)
two_values values = err (make_error (text "fs.Catalog") (string_arg (text "Invalid token") ∷ []))

unfoldable pub mod_ver_from_token : Text → Result (Text × Text)
mod_ver_from_token token =
    if is_empty token then ok ([], []) else two_values (split (text "|") token)

-- Whether the function of the walk passes over a version.
unfoldable pub is_skipped : Text → Text → AllPathParams → Bool
unfolding text_lt
is_skipped from_module from_version v =
    if not (is_empty from_module) && text_lt v.module_path from_module
    then true
    else not (is_empty from_version) && not (text_lt from_version v.version)

-- The walk with its count, which a page size that is not positive never brings to 0: such a size
-- is 0 here.
unfoldable pub walk : Text → Text → ℕ → List AllPathParams → List AllPathParams × Text
unfolding is_skipped token_from_mod_ver
walk from_module from_version count [] = ([], [])
walk from_module from_version count (v ∷ found) =
    let passed = walk from_module from_version count found in
    let (more, token) = walk from_module from_version (count - 1) found in
    if is_skipped from_module from_version v
    then passed
    else if count == 1
    then (v ∷ [], token_from_mod_ver v.module_path v.version)
    else (v ∷ more, token)

unfoldable pub catalog : List AllPathParams → Text → ℕ → Result (List AllPathParams × Text)
unfolding mod_ver_from_token walk
catalog found token page_size = elim (mod_ver_from_token token) [
  | err e ↦ err (make_error (text "fs.Catalog") (error_arg e ∷ kind_arg kind_bad_request ∷ []))
  | ok (from_module, from_version) ↦ ok (walk from_module from_version page_size found)
]

-- `getLimitFromParam`, where a number that is not positive is 0.
unfoldable pub limit_from_param : Text → Option ℕ
limit_from_param param =
    if is_empty param
    then some 1000
    else elim (atoi param) [ none ↦ none | some n ↦ some (n - int_zero) ]

-- What the handler answers: a status, or the page and its token.
pub data CatalogAnswer : Type 0 where
  failed : ℕ → CatalogAnswer
  page : List AllPathParams → Text → CatalogAnswer

-- The backend's `Catalog`, where it has one.
unfoldable pub catalog_handler :
    Option (Text → ℕ → Result (List AllPathParams × Text)) → Text → Text → CatalogAnswer
unfolding limit_from_param
catalog_handler none token page_size = failed 501
catalog_handler (some cs) token page_size = elim (limit_from_param page_size) [
  | none ↦ failed 500
  | some size ↦ elim (cs token size) [
    | err e ↦ failed (kind e)
    | ok (versions, next_token) ↦ page versions next_token
  ]
]
