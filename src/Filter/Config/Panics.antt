-- ===== src/Filter/Config/Panics.antt =====
-- A list of qualifiers with an empty entry ends the program.
use athens.Prelude.{◌≡◌, refl, none, List, [], ◌∷◌, ◌++◌, Text, arith}
use athens.Filter.Config.{read_qualifiers}

-- Wherever an entry between the commas of a line is empty, reading the line panics.
read_qualifiers_panic : (before after : List Text) → read_qualifiers (before ++ [] ∷ after) ≡ none
unfolding read_qualifiers
read_qualifiers_panic [] after = refl
read_qualifiers_panic (q ∷ before) after = ground (arith, read_qualifiers_panic before after)
