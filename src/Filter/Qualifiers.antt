-- ===== src/Filter/Qualifiers.antt =====
-- `matches` of pkg/module/filter.go, and what it takes from Go's packages strings and strconv.
pub mod Order
use athens.Prelude.{
  ℕ, zero, suc, ◌+◌, ◌-◌, ◌*◌, Bool, true, false, ◌&&◌, ◌||◌, not, Option, none, some, List, [],
  ◌∷◌, ◌++◌, ◌==◌, nat_eq, text_eq, if◌then◌else◌, Text, text, is_empty, strip_prefix, leb, ltb,
  length, contains, split,
}
use mathlib.Core.List.{reverse}

-- unicode.IsSpace on ASCII.
is_space : ℕ → Bool
is_space c = (leb 9 c && leb c 13) || c == 32

trim_left : (ℕ → Bool) → Text → Text
trim_left p [] = []
trim_left p (c ∷ s) = let rest = trim_left p s in if p c then rest else c ∷ s

unfoldable pub trim_right : (ℕ → Bool) → Text → Text
unfolding trim_left
trim_right p s = reverse (trim_left p (reverse s))

-- strings.TrimSpace, and strings.Trim with a cutset.
unfoldable pub trim_space : Text → Text
unfolding trim_left trim_right is_space
trim_space s = trim_right is_space (trim_left is_space s)

unfoldable pub trim : Text → Text → Text
unfolding trim_left trim_right contains
trim cutset s = trim_right (λ c. contains cutset c) (trim_left (λ c. contains cutset c) s)

-- strconv.Atoi. A Go int n stands for itself plus 2 ^ 63, so that the order of the ints is the order
-- of these numbers; what does not fit 64 bits is an error.
abbrev pub int_zero : ℕ
int_zero = 9223372036854775808

digits_value : ℕ → Text → Option ℕ
digits_value n [] = some n
digits_value n (c ∷ s) =
    let rest = digits_value (n * 10 + (c - b'0')) s in
    if leb b'0' c && leb c b'9' then rest else none

unfoldable pub atoi : Text → Option ℕ
unfolding digits_value
atoi [] = none
atoi (c ∷ s) =
    if c == b'-'
    then (if is_empty s then none else elim (digits_value 0 s) [
      | none ↦ none
      | some n ↦ if leb n int_zero then some (int_zero - n) else none
    ])
    else (let number = if c == b'+' then s else c ∷ s in
        if is_empty number then none else elim (digits_value 0 number) [
          | none ↦ none
          | some n ↦ if ltb n int_zero then some (int_zero + n) else none
        ])

atoi_all : List Text → Option (List ℕ)
unfolding atoi
atoi_all [] = some []
atoi_all (v ∷ vs) = elim (atoi v) [
  | none ↦ none
  | some n ↦ elim (atoi_all vs) [ none ↦ none | some ns ↦ some (n ∷ ns) ]
]

-- `getVersionSegments`
unfoldable pub get_version_segments : Text → Option (List ℕ)
unfolding trim_space trim split atoi_all
get_version_segments path =
    let trimmed = trim (text ".") (trim_space path) in
    atoi_all (if is_empty trimmed then [] else split (text ".") trimmed)

-- The three modifiers, on the segments of the version and of the qualifier.
unfoldable pub matches_tilde : ℕ → ℕ → ℕ → ℕ → ℕ → ℕ → Bool
matches_tilde v0 v1 v2 q0 q1 q2 = v0 == q0 && (v1 == q1 && leb q2 v2)

unfoldable pub matches_caret : ℕ → ℕ → ℕ → ℕ → ℕ → ℕ → Bool
matches_caret v0 v1 v2 q0 q1 q2 =
    if v0 == q0 && ltb q1 v1 then true else v0 == q0 && (v1 == q1 && leb q2 v2)

unfoldable pub matches_less : ℕ → ℕ → ℕ → ℕ → ℕ → ℕ → Bool
matches_less v0 v1 v2 q0 q1 q2 =
    if ltb v0 q0
    then true
    else if v0 == q0 && ltb v1 q1
    then true
    else v0 == q0 && (v1 == q1 && leb v2 q2)

unfoldable pub matches_modifier : ℕ → List ℕ → List ℕ → Bool
unfolding matches_tilde matches_caret matches_less
matches_modifier prefix (v0 ∷ v1 ∷ v2 ∷ []) (q0 ∷ q1 ∷ q2 ∷ []) =
    if prefix == b'~'
    then matches_tilde v0 v1 v2 q0 q1 q2
    else if prefix == b'^'
    then matches_caret v0 v1 v2 q0 q1 q2
    else if prefix == b'<'
    then matches_less v0 v1 v2 q0 q1 q2
    else false
matches_modifier prefix _ _ = false

abbrev is_some_text : Option Text → Bool
is_some_text none = false
is_some_text (some s) = true

matches_segments : ℕ → Option (List ℕ) → Option (List ℕ) → Bool
unfolding matches_modifier
matches_segments prefix (some v) (some q) = matches_modifier prefix v q
matches_segments prefix _ _ = false

unfoldable pub matches : Text → Text → Bool
unfolding get_version_segments matches_segments
matches (w ∷ version) (prefix ∷ first ∷ qualifier) =
    if prefix == b'v' && (leb b'0' first && leb first b'9')
    then is_some_text (strip_prefix (prefix ∷ first ∷ qualifier) (w ∷ version))
    else matches_segments prefix (get_version_segments version) (get_version_segments qualifier)
matches _ _ = false
