-- ===== src/Storage/Catalog/Pages.antt =====
-- What a page of the catalog lists.
use athens.Prelude.{
  ℕ, ◌-◌, ◌≡◌, true, false, List, [], ◌∷◌, ◌==◌, nat_eq, Text, is_empty, arith, All, Bool-cases,
  inl, inr,
}
use athens.Paths.{AllPathParams}
use athens.Storage.Catalog.{text_lt, is_skipped, walk}

passed-is_skipped :
    (from_module from_version : Text) (v : AllPathParams)
    → is_empty from_version ≡ false
    → is_empty from_module ≡ false
    → is_skipped from_module from_version v ≡ false
    → (text_lt from_version v.version ≡ true) × (text_lt v.module_path from_module ≡ false)
unfolding is_skipped
passed-is_skipped from_module from_version v named known h = ground arith

-- A page behind a token, whose module and version are not empty, lists no module that is before the module of the token, and of the token's
-- module and of every later one only versions that are greater than the version of the token.
pub walk_behind_token :
    (from_module from_version : Text) (count : ℕ) (found : List AllPathParams)
    → is_empty from_version ≡ false
    → is_empty from_module ≡ false
    → All
        (λ (v : AllPathParams).
          (text_lt from_version v.version ≡ true) × (text_lt v.module_path from_module ≡ false))
        (walk from_module from_version count found).0
unfolding walk
walk_behind_token from_module from_version count [] named known = tt
walk_behind_token from_module from_version count (v ∷ found) named known =
    elim (Bool-cases (is_skipped from_module from_version v)) [
      | inl skipped ↦
          rw skipped (walk_behind_token from_module from_version count found named known)
      | inr listed ↦ elim (Bool-cases (count == 1)) [
        | inl last ↦
            rw (listed, last) (passed-is_skipped from_module from_version v named known listed, tt)
        | inr more ↦
            rw (listed, more)
              (
                passed-is_skipped from_module from_version v named known listed,
                walk_behind_token from_module from_version (count - 1) found named known,
              )
      ]
    ]
