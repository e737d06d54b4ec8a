-- ===== src/Paths/Pattern.antt =====
-- A pattern without wildcards selects the path itself and the paths below it.
use athens.Prelude.{
  ℕ, ◌+◌, ◌-◌, ◌≡◌, refl, ◌≢◌, ◌↔◌, ◌⊎◌, Bool, true, false, ◌&&◌, Option, none, some, List, [], ◌∷◌,
  ◌++◌, ◌==◌, nat_eq, if◌then◌else◌, Text, All, arith, append-nil, append_assoc, Option-cases,
  Bool-cases, inl, inr, ◌∙◌, is_empty,
}
use mathlib.Core.List.{map}
use athens.Paths.{count_byte, cut_prefix, matches_pattern}
use athens.Paths.Glob.{Token, lit, top, scan, scan_byte, match_chunk, chunks, match_chunks, glob}

-- No byte that path.Match reads in another way than as itself.
abbrev pub IsLiteral : ℕ → Type 0
IsLiteral c = (c ≢ b'*') × (c ≢ b'?') × (c ≢ b'[') × (c ≢ 0x5c)

scan_byte-literal : (c : ℕ) → IsLiteral c → scan_byte top c ≡ some (top, lit c ∷ [])
unfolding scan_byte
scan_byte-literal c l = ground arith

scan-literal : (p : Text) → All IsLiteral p → scan top p ≡ some (map lit p)
unfolding scan
scan-literal [] h = refl
scan-literal (c ∷ p) (l, h) = ground (arith, scan_byte-literal c l, scan-literal p h)

chunks-literal :
    (chunk : List Token) (p : Text)
    → chunks false chunk (map lit p) ≡ chunks false (chunk ++ map lit p) []
unfolding chunks
chunks-literal chunk [] = rw append-nil
chunks-literal chunk (c ∷ p) = chunks-literal (chunk ++ lit c ∷ []) p ∙ rw append_assoc

match_chunk-literal : (p s : Text) → match_chunk (map lit p) s ≡ some [] → s ≡ p
unfolding match_chunk
match_chunk-literal [] s h = ground arith
match_chunk-literal (c ∷ p) [] h = cc
match_chunk-literal (c ∷ p) (d ∷ s) h = ground (arith, match_chunk-literal p s)

match_chunk_self : (p : Text) → match_chunk (map lit p) p ≡ some []
unfolding match_chunk
match_chunk_self [] = refl
match_chunk_self (c ∷ p) = ground (arith, match_chunk_self p)

-- The last chunk, with no star before it, stands at the start of the name and ends it.
found_at_end : Option Text → Bool
found_at_end none = false
found_at_end (some rest) = is_empty rest

match_chunks-last :
    (t : Token) (chunk : List Token) (s : Text)
    → match_chunks ((false, t ∷ chunk) ∷ []) s ≡ found_at_end (match_chunk (t ∷ chunk) s)
unfolding match_chunks found_at_end match_chunk
match_chunks-last t chunk [] = refl
match_chunks-last t chunk (c ∷ s) = ground arith

match_literal_iff : (p s : Text) → (found_at_end (match_chunk (map lit p) s) ≡ true) ↔ (s ≡ p)
unfolding found_at_end
match_literal_iff p s = (
  (λ h. elim (Option-cases (match_chunk (map lit p) s)) [
    | inl e ↦ absurd (cc)
    | inr (rest, e) ↦ ground (arith, match_chunk-literal p s)
  ]),
  (λ e. rw e (rw match_chunk_self)),
)

glob-literal :
    (p s : Text) → All IsLiteral p → glob p s ≡ match_chunks (chunks false (map lit p) []) s
unfolding glob
glob-literal p s h = rw (scan-literal p h, glob) (rw chunks-literal)

-- Without wildcards path.Match compares.
pub glob-literal_iff : (p s : Text) → All IsLiteral p → (glob p s ≡ true) ↔ (s ≡ p)
glob-literal_iff [] s h = rw (glob-literal [] s h) (unfold chunks match_chunks in ground arith)
glob-literal_iff (c ∷ p) s h =
    rw (glob-literal (c ∷ p) s h)
      (unfold chunks in rw match_chunks-last (match_literal_iff (c ∷ p) s))

-- A path below another one: the other is a prefix of whole segments.
abbrev pub IsBelow : Text → Text → Type 0
IsBelow p t = (rest : Text) × (t ≡ p ++ b'/' ∷ rest)

cut_prefix-split : (n : ℕ) (t : Text) → (t ≡ (cut_prefix n t).0) ⊎ IsBelow (cut_prefix n t).0 t
unfolding cut_prefix
cut_prefix-split n [] = inl refl
cut_prefix-split n (c ∷ t) = elim (Bool-cases (c == b'/' && n == 0)) [
  | inl stop ↦ inr (t, ground arith)
  | inr on ↦ elim (cut_prefix-split (if c == b'/' then n - 1 else n) t) [
    | inl whole ↦ inl (ground arith)
    | inr (rest, part) ↦ inr (rest, ground arith)
  ]
]

-- One more byte in front of the path that is cut off, and of the pattern that is counted.
cut_prefix-cons :
    (c n : ℕ) (t p : Text)
    → cut_prefix n t ≡ (p, 0)
    → cut_prefix (if c == b'/' then n + 1 else n) (c ∷ t) ≡ (c ∷ p, 0)
unfolding cut_prefix
cut_prefix-cons c n t p e = elim (Bool-cases (c == b'/')) [
  | inl slash ↦ let same : n + 1 - 1 ≡ n = omega arith in rw slash (rw same (ground arith))
  | inr other ↦ ground arith
]

cut_prefix_self : (p : Text) → cut_prefix (count_byte b'/' p) p ≡ (p, 0)
unfolding cut_prefix count_byte
cut_prefix_self [] = refl
cut_prefix_self (c ∷ p) = cut_prefix-cons c _ p p (cut_prefix_self p)

cut_prefix_below : (p rest : Text) → cut_prefix (count_byte b'/' p) (p ++ b'/' ∷ rest) ≡ (p, 0)
unfolding cut_prefix count_byte
cut_prefix_below [] rest = refl
cut_prefix_below (c ∷ p) rest = cut_prefix-cons c _ (p ++ b'/' ∷ rest) p (cut_prefix_below p rest)

matched :
    (pattern target : Text)
    → matches_pattern pattern target ≡ true
    → ((cut_prefix (count_byte b'/' pattern) target).1 ≡ 0)
      × (glob pattern (cut_prefix (count_byte b'/' pattern) target).0 ≡ true)
unfolding matches_pattern
matched pattern target e = ground arith

matches :
    (pattern target : Text)
    → All IsLiteral pattern
    → (target ≡ pattern) ⊎ IsBelow pattern target
    → matches_pattern pattern target ≡ true
unfolding matches_pattern
matches pattern target h (inl e) =
    rw (e, cut_prefix_self pattern) ((glob-literal_iff pattern pattern h).1 refl)
matches pattern target h (inr (rest, e)) =
    rw (e, cut_prefix_below pattern rest) ((glob-literal_iff pattern pattern h).1 refl)

-- A pattern without wildcards matches the path that it spells and every path below that one, and no
-- other path; it is not a plain prefix test.
matches_pattern-literal_iff :
    (pattern target : Text)
    → All IsLiteral pattern
    → (matches_pattern pattern target ≡ true) ↔ ((target ≡ pattern) ⊎ IsBelow pattern target)
matches_pattern-literal_iff pattern target h = (
  (λ e.
      let (none_left, same) = matched pattern target e in
      let spelled : (cut_prefix (count_byte b'/' pattern) target).0 ≡ pattern =
        (glob-literal_iff _ _ h).0 same in
      rw spelled at (cut_prefix-split (count_byte b'/' pattern) target)),
  matches pattern target h,
)
