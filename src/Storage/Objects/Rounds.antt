-- ===== src/Storage/Objects/Rounds.antt =====
-- pkg/storage/s3/cataloger.go: the catalog of a bucket, which asks for pages of objects until it has
-- as many versions as are wanted. The listing of the objects behind a marker is a parameter.
pub mod Ends
use athens.Prelude.{
  ℕ, zero, suc, ◌-◌, Bool, true, false, not, Option, none, some, List, [], ◌∷◌, ◌++◌, ◌==◌, nat_eq,
  if◌then◌else◌, Text, text, length,
}
use athens.Errors.{Result, ok, err, make_error, error_arg}
use athens.Paths.{AllPathParams}
use athens.Storage.Objects.{has_suffix, parse_mod_ver}

-- A version that was found, where `found` is what the loop does with the other objects behind it.
abbrev put_first : AllPathParams → List AllPathParams × Text → List AllPathParams × Text
put_first p (res, last_key) = (p ∷ res, last_key)

-- The loop of `fetchModsAndVersions`, from the last key that was taken.
unfoldable pub fetch_mods_and_versions : List Text → ℕ → Text → List AllPathParams × Text
unfolding has_suffix parse_mod_ver
fetch_mods_and_versions [] elements_num last_key = ([], last_key)
fetch_mods_and_versions (key ∷ objects) elements_num last_key =
    elim (has_suffix key (text ".info")) [
      | false ↦ fetch_mods_and_versions objects elements_num last_key
      | true ↦ elim (parse_mod_ver (text "s3.parseS3Key") key) [
        | err e ↦ fetch_mods_and_versions objects elements_num last_key
        | ok p ↦ elim (elements_num == 1) [
          | true ↦ (p ∷ [], key)
          | false ↦ put_first p (fetch_mods_and_versions objects (elements_num - 1) key)
        ]
      ]
    ]

-- A page of objects: their keys, and whether there are more.
pub record Listing : Type 0 where
  pub contents : List Text
  pub is_truncated : Bool

abbrev add_page :
    List AllPathParams
    → Option (Result (List AllPathParams × Text))
    → Option (Result (List AllPathParams × Text))
add_page m none = none
add_page m (some (err e)) = some (err e)
add_page m (some (ok (res, token))) = some (ok (m ++ res, token))

-- The loop of `Catalog` on fuel; a count that is not positive is 0 here.
unfoldable pub s3_catalog :
    ℕ → (Text → Result Listing) → Text → ℕ → Option (Result (List AllPathParams × Text))
unfolding fetch_mods_and_versions
s3_catalog zero objects token count = none
s3_catalog (suc fuel) objects token count = elim (count == 0) [
  | true ↦ some (ok ([], token))
  | false ↦ elim (objects token) [
    | err e ↦ some (err (make_error (text "s3.Catalog") (error_arg e ∷ [])))
    | ok loo ↦
        let (m, last_key) = fetch_mods_and_versions loo.contents count [] in
        let count_left = count - length m in
        elim loo.is_truncated [
          | false ↦ some (ok (m, if count_left == 0 then last_key else []))
          | true ↦ add_page m (s3_catalog fuel objects last_key count_left)
        ]
  ]
]
