-- ===== src/Paths/Glob.antt =====
-- path.Match of Go's standard library as `MatchesPattern` of pkg/paths/path.go uses it: only whether
-- it matched, so a malformed pattern matches nothing. Texts are ASCII here: Go reads runes.
use athens.Prelude.{
  ℕ, ◌==◌, nat_eq, Bool, true, false, ◌&&◌, ◌||◌, not, Option, none, some, List, [], ◌∷◌, ◌++◌, leb,
  if◌then◌else◌, Text, is_empty,
}

pub data Token : Type 0 where
  lit : ℕ → Token
  any star : Token
  class : Bool → List (ℕ × ℕ) → Token

-- Where the scanner stands: in a class it knows whether the class is negated, its ranges, and the
-- low end of a range that is open.
pub data ScanState : Type 0 where
  top escaped opened : ScanState
  inside inside_escaped : Bool → List (ℕ × ℕ) → ScanState
  after_low high high_escaped : Bool → List (ℕ × ℕ) → ℕ → ScanState

-- What stands in a class where a range or the closing bracket may begin.
in_class : Bool → List (ℕ × ℕ) → ℕ → Option (ScanState × List Token)
in_class neg rs c =
    if c == b']' && not (is_empty rs)
    then some (top, class neg rs ∷ [])
    else if c == b']' || c == b'-'
    then none
    else if c == 0x5c
    then some (inside_escaped neg rs, [])
    else some (after_low neg rs c, [])

unfoldable pub scan_byte : ScanState → ℕ → Option (ScanState × List Token)
unfolding in_class
scan_byte top c =
    if c == b'*'
    then some (top, star ∷ [])
    else if c == b'?'
    then some (top, any ∷ [])
    else if c == b'['
    then some (opened, [])
    else if c == 0x5c
    then some (escaped, [])
    else some (top, lit c ∷ [])
scan_byte escaped c = some (top, lit c ∷ [])
scan_byte opened c = if c == b'^' then some (inside true [], []) else in_class false [] c
scan_byte (inside neg rs) c = in_class neg rs c
scan_byte (inside_escaped neg rs) c = some (after_low neg rs c, [])
scan_byte (after_low neg rs lo) c =
    if c == b'-' then some (high neg rs lo, []) else in_class neg (rs ++ (lo, lo) ∷ []) c
scan_byte (high neg rs lo) c =
    if c == 0x5c
    then some (high_escaped neg rs lo, [])
    else if c == b'-' || c == b']'
    then none
    else some (inside neg (rs ++ (lo, c) ∷ []), [])
scan_byte (high_escaped neg rs lo) c = some (inside neg (rs ++ (lo, c) ∷ []), [])

unfoldable pub scan : ScanState → Text → Option (List Token)
unfolding scan_byte
scan top [] = some []
scan _ [] = none
scan mode (c ∷ s) = elim (scan_byte mode c) [
  | none ↦ none
  | some (next, out) ↦ elim (scan next s) [ none ↦ none | some more ↦ some (out ++ more) ]
]

in_ranges : List (ℕ × ℕ) → ℕ → Bool
in_ranges [] c = false
in_ranges ((lo, hi) ∷ rs) c = (leb lo c && leb c hi) || in_ranges rs c

token_matches : Token → ℕ → Bool
unfolding in_ranges
token_matches (lit a) c = a == c
token_matches any c = not (c == b'/')
token_matches star c = false
token_matches (class neg rs) c = if neg then not (in_ranges rs c) else in_ranges rs c

-- `matchChunk`: what is left of the name behind a chunk without stars.
unfoldable pub match_chunk : List Token → Text → Option Text
unfolding token_matches
match_chunk [] name = some name
match_chunk (t ∷ chunk) [] = none
match_chunk (t ∷ chunk) (c ∷ name) = if token_matches t c then match_chunk chunk name else none

-- A chunk with what it may skip before it, and whether it is the last: the name that goes on.
fits : Bool → Option Text → Option Text
fits last none = none
fits last (some []) = some []
fits last (some (c ∷ rest)) = if last then none else some (c ∷ rest)

unfoldable pub find_chunk : Bool → Bool → List Token → Text → Option Text
unfolding fits match_chunk
find_chunk last skips chunk [] = fits last (match_chunk chunk [])
find_chunk last skips chunk (c ∷ name) = elim (fits last (match_chunk chunk (c ∷ name))) [
  | some rest ↦ some rest
  | none ↦
      let later = find_chunk last skips chunk name in
      if skips && not (c == b'/') then later else none
]

-- The pattern cut at its stars: each chunk with whether stars stand before it.
unfoldable pub chunks : Bool → List Token → List Token → List (Bool × List Token)
chunks skips chunk [] = if is_empty chunk && not skips then [] else (skips, chunk) ∷ []
chunks skips chunk (star ∷ ts) =
    if is_empty chunk then chunks true [] ts else (skips, chunk) ∷ chunks true [] ts
chunks skips chunk (t ∷ ts) = chunks skips (chunk ++ t ∷ []) ts

has_slash : Text → Bool
has_slash [] = false
has_slash (c ∷ s) = c == b'/' || has_slash s

unfoldable pub match_chunks : List (Bool × List Token) → Text → Bool
unfolding find_chunk has_slash
match_chunks [] name = is_empty name
match_chunks ((skips, chunk) ∷ more) name =
    if skips && is_empty chunk
    then not (has_slash name)
    else elim (find_chunk (is_empty more) skips chunk name) [
      | none ↦ false
      | some rest ↦ match_chunks more rest
    ]

unfoldable pub glob : Text → Text → Bool
unfolding scan chunks match_chunks
glob pattern name = elim (scan top pattern) [
  | none ↦ false
  | some ts ↦ match_chunks (chunks false [] ts) name
]
