-- ===== src/Download/Versions.antt =====
-- The lists of versions of pkg/download/protocol.go: `removePseudoVersions` and `union`.
pub mod Laws
use athens.Prelude.{
  ℕ, zero, suc, Bool, true, false, ◌&&◌, ◌||◌, Option, none, some, List, [], ◌∷◌, ◌++◌, leb, ◌==◌,
  text_eq, nat_eq, if◌then◌else◌, Text, text, is_empty, strip_prefix, contains,
}
use athens.Paths.{count_byte}

is_digit : ℕ → Bool
is_digit c = leb b'0' c && leb c b'9'

is_alnum : ℕ → Bool
unfolding is_digit
is_alnum c = is_digit c || ((leb b'A' c && leb c b'Z') || (leb b'a' c && leb c b'z'))

-- What is left behind the longest run of bytes of a kind, with whether the run is empty.
drop_while : (ℕ → Bool) → Text → Text
drop_while p [] = []
drop_while p (c ∷ s) = let rest = drop_while p s in if p c then rest else c ∷ s

-- `[0-9]+`, `[A-Za-z0-9]+`: one byte of the kind or more. What follows such a run in the expression
-- is never of its kind, so the longest run is the only one that can match.
run : (ℕ → Bool) → Text → Option Text
unfolding drop_while
run p [] = none
run p (c ∷ s) = if p c then some (drop_while p s) else none

-- `\d{n}`
digits_exactly : ℕ → Text → Option Text
unfolding is_digit
digits_exactly zero s = some s
digits_exactly (suc n) [] = none
digits_exactly (suc n) (c ∷ s) = if is_digit c then digits_exactly n s else none

infixl 5 ◌>>=◌
abbrev pub ◌>>=◌ {ℓ κ} : {A : Type ℓ} {B : Type κ} → Option A → (A → Option B) → Option B
none >>= f = none
some a >>= f = f a

-- `\d{14}-[A-Za-z0-9]+(\+incompatible)?$`
stamp : Text → Bool
unfolding digits_exactly run is_alnum
stamp s =
    let left : Option Text = (do
      a ← digits_exactly 14 s
      b ← strip_prefix (text "-") a
      run is_alnum b) in
    elim left [ none ↦ false | some rest ↦ is_empty rest || rest == text "+incompatible" ]

stamp_after : Option Text → Bool
unfolding stamp
stamp_after none = false
stamp_after (some s) = stamp s

-- `([^+]*\.)?0\.` and the stamp: a "0." that stands first or behind a dot, with no plus before it.
zero_stamp : Bool → Text → Bool
unfolding stamp_after
zero_stamp dot [] = false
zero_stamp dot (c ∷ s) =
    (dot && stamp_after (strip_prefix (text "0.") (c ∷ s)))
    || (if c == b'+' then false else zero_stamp (c == b'.') s)

zero_stamp_after : Option Text → Bool
unfolding zero_stamp
zero_stamp_after none = false
zero_stamp_after (some s) = zero_stamp true s

-- `pseudoVersionRE`: ^v[0-9]+\.(0\.0-|\d+\.\d+-([^+]*\.)?0\.)\d{14}-[A-Za-z0-9]+(\+incompatible)?$
unfoldable pub pseudo_version_re : Text → Bool
unfolding stamp_after zero_stamp_after run is_digit
pseudo_version_re s =
    let major : Option Text = (do
      a ← strip_prefix (text "v") s
      b ← run is_digit a
      strip_prefix (text ".") b) in
    let base : Option Text = (do a ← major; strip_prefix (text "0.0-") a) in
    let minor : Option Text = (do
      a ← major
      b ← run is_digit a
      c ← strip_prefix (text ".") b
      d ← run is_digit c
      strip_prefix (text "-") d) in
    stamp_after base || zero_stamp_after minor

unfoldable pub is_pseudo_version : Text → Bool
unfolding count_byte pseudo_version_re
is_pseudo_version v = leb 2 (count_byte b'-' v) && pseudo_version_re v

unfoldable pub remove_pseudo_versions : List Text → List Text
remove_pseudo_versions [] = []
remove_pseudo_versions (v ∷ vers) =
    let rest = remove_pseudo_versions vers in if is_pseudo_version v then rest else v ∷ rest

-- The loop of `union`; the keys of its map are the versions that `unique` holds.
union_from : List Text → List Text → List Text
union_from unique [] = unique
union_from unique (v ∷ vs) = union_from (if contains unique v then unique else unique ++ v ∷ []) vs

unfoldable pub union : List Text → List Text → List Text
unfolding union_from
union list1 list2 = union_from [] (list1 ++ list2)
