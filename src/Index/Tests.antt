-- ===== src/Index/Tests.antt =====
-- The theorems on the index in memory at concrete inputs.
use athens.Prelude.{◌≡◌, refl, true, false, none, List, [], ◌∷◌, text, text_beq, ◌↔◌}
use athens.Index.{Line, index, is_indexed, lines}
use athens.Index.Mem.{first, not_before, lines_lem, is_once, index_once}
use athens.Stash.{index_failure}

abbrev two : List Line
two =
    record { path = text "a"; version = text "v1"; timestamp = 3 }
    ∷ record { path = text "b"; version = text "v1"; timestamp = 5 }
    ∷ []

lines_lem_example : lines 4 10 two ≡ first 10 (not_before 4 two)
lines_lem_example = lines_lem 4 10 two

index_once_example :
    (is_once (index 9 two (text "a") (text "v1")).1 ≡ true)
    × (is_indexed (index 9 two (text "a") (text "v1")).1 (text "a") (text "v1") ≡ true)
    × (((index 9 two (text "a") (text "v1")).0 ≡ none)
        ↔ (is_indexed two (text "a") (text "v1") ≡ false))
    × (index_failure (index 9 two (text "a") (text "v1")).0 ≡ none)
unfolding is_once is_indexed text_beq
index_once_example = index_once 9 two (text "a") (text "v1") refl
