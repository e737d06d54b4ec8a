-- ===== src/Paths/Tests.antt =====
-- The theorems on paths at concrete inputs.
use athens.Prelude.{◌≡◌, ◌↔◌, refl, true, some, text, All}
use athens.Paths.{decode_string, matches_pattern}
use athens.Paths.Decode.{escape, IsPathByte, decode_string_iff}
use athens.Paths.Glob.{glob}

decode_string_iff_example :
    (decode_string (text "!azure") ≡ some (text "Azure"))
    ↔ (All IsPathByte (text "Azure") × (text "!azure" ≡ escape (text "Azure")))
decode_string_iff_example = decode_string_iff (text "!azure") (text "Azure")

decoded : decode_string (text "github.com/!azure/x") ≡ some (text "github.com/Azure/x")
unfolding decode_string
decoded = refl

globs : (glob (text "git*.com/[a-c]?") (text "github.com/bz") ≡ true)
unfolding glob
globs = refl

below : matches_pattern (text "*.corp.com") (text "git.corp.com/a/b") ≡ true
unfolding matches_pattern
below = refl
