-- ===== src/Storage/Objects.antt =====
-- The catalogs of the backends that keep objects by name: pkg/storage/gcp/cataloger.go and
-- pkg/storage/azureblob/cataloger.go, and the reading of names in pkg/config/module.go. The listing of
-- the objects, with its pages and tokens, is the service's, so that the model starts from the names of one page.
pub mod Names
pub mod Rounds
use athens.Prelude.{
  ℕ, zero, suc, ◌-◌, Bool, true, false, ◌&&◌, ◌||◌, not, List, [], ◌∷◌, ◌++◌, ◌==◌, text_eq, nat_eq,
  if◌then◌else◌, Text, text, is_empty, length, contains, cons_first,
}
use athens.Errors.{Result, ok, err, plain, make_error, error_arg, has_prefix}
use athens.Paths.{AllPathParams}

-- strings.Split at a separator of several bytes, of which the given number is still to be passed over.
unfoldable pub pieces : Text → ℕ → Text → List Text
unfolding has_prefix
pieces sep skip [] = [] ∷ []
pieces sep (suc skip) (c ∷ s) = pieces sep skip s
pieces sep zero (c ∷ s) = elim (has_prefix (c ∷ s) sep) [
  | true ↦ [] ∷ pieces sep (length sep - 1) s
  | false ↦ cons_first c (pieces sep zero s)
]

-- filepath.Ext: from the last dot, where no slash follows it.
unfoldable pub filepath_ext : Text → Text
unfolding contains
filepath_ext [] = []
filepath_ext (c ∷ s) =
    let rest = filepath_ext s in
    if is_empty rest && c == b'.' && not (contains s b'/') then c ∷ s else rest

unfoldable pub has_suffix : Text → Text → Bool
has_suffix [] suffix = is_empty suffix
has_suffix (c ∷ s) suffix = (c ∷ s) == suffix || has_suffix s suffix

-- strings.TrimSuffix
unfoldable pub trim_suffix : Text → Text → Text
trim_suffix [] suffix = []
trim_suffix (c ∷ s) suffix = if (c ∷ s) == suffix then [] else c ∷ trim_suffix s suffix

unfoldable pub two_segments : List Text → Text × Text
unfolding filepath_ext trim_suffix
two_segments (before ∷ after ∷ []) = (before, trim_suffix after (filepath_ext after))
two_segments _ = ([], [])

unfoldable pub module_version_from_path : Text → Text × Text
unfolding pieces two_segments
module_version_from_path path = two_segments (pieces (text "/@v/") 0 path)

-- `parsModVer`, with the name of its operation.
unfoldable pub parse_mod_ver : Text → Text → Result AllPathParams
unfolding module_version_from_path
parse_mod_ver op p =
    let (m, v) = module_version_from_path p in
    if is_empty m || is_empty v
    then err (make_error op (error_arg (plain (text "invalid object key format " ++ p)) ∷ []))
    else ok (record { module_path = m; version = v })

-- The loop of `Catalog` over the names of the objects of a page.
unfoldable pub listed_objects : Text → List Text → List AllPathParams
unfolding has_suffix parse_mod_ver
listed_objects op [] = []
listed_objects op (name ∷ names) =
    let rest = listed_objects op names in
    if has_suffix name (text ".info")
    then elim (parse_mod_ver op name) [ err e ↦ rest | ok p ↦ p ∷ rest ]
    else rest
