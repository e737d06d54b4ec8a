-- ===== src/Storage/Tests.antt =====
-- The theorem on the catalog at a concrete input.
use athens.Prelude.{◌≡◌, refl, true, false, List, [], ◌∷◌, text, All, split, contains}
use athens.Errors.{ok}
use athens.Paths.{AllPathParams}
use athens.Storage.Catalog.{text_lt, walk, catalog}
use athens.Storage.Catalog.Pages.{walk_behind_token}

abbrev stored : List AllPathParams
stored =
    record { module_path = text "a"; version = text "v2" }
    ∷ record { module_path = text "b"; version = text "v1" }
    ∷ []

walk_behind_token_example :
    All
      (λ (v : AllPathParams).
        (text_lt (text "v2") v.version ≡ true) × (text_lt v.module_path (text "a") ≡ false))
      (walk (text "a") (text "v2") 1 stored).0
walk_behind_token_example = walk_behind_token (text "a") (text "v2") 1 stored refl refl

-- The pages of size 1: the second version is on none of them.
first_page :
    catalog stored [] 1
    ≡ ok (record { module_path = text "a"; version = text "v2" } ∷ [], text "a|v2")
unfolding catalog
first_page = refl

second_page : catalog stored (text "a|v2") 1 ≡ ok ([], [])
unfolding catalog split contains
second_page = refl
