-- ===== src/Site/Highlight/Fuel.antt =====
-- The loop over the matches of a text ends: the length of the text is enough fuel.
use athens.Prelude.{
  ℕ, zero, suc, ◌<◌, ◌≡◌, refl, ap, false, some, List, [], ◌∷◌, ◌++◌, nat_eq, Text, is_empty,
  length, length-append, arith, Option-cases, inl, inr,
}
use athens.Site.Highlight.{Nodes, word_at, match_at, find, mark_text, non_empty}
use athens.Site.Highlight.Content.{find-append}

word_at-filled :
    (word s hit rest : Text)
    → is_empty word ≡ false
    → word_at word s ≡ some (hit, rest)
    → is_empty hit ≡ false
unfolding word_at
word_at-filled [] s hit rest filled h = absurd (cc)
word_at-filled (w ∷ word) [] hit rest filled h = absurd (cc)
word_at-filled (w ∷ word) (c ∷ s) hit rest filled h = elim (Option-cases (word_at word s)) [
  | inl miss ↦ absurd (ground arith)
  | inr ((a, b), found) ↦ ground arith
]

pub AreFilled : List Text → Type 0
AreFilled [] = Unit
AreFilled (w ∷ ws) = (is_empty w ≡ false) × AreFilled ws

match_at-filled :
    (words : List Text) (s hit rest : Text)
    → AreFilled words
    → match_at words s ≡ some (hit, rest)
    → is_empty hit ≡ false
unfolding match_at AreFilled
match_at-filled [] s hit rest filled h = absurd (cc)
match_at-filled (w ∷ words) s hit rest (full, filled) h = elim (Option-cases (word_at w s)) [
  | inl miss ↦ match_at-filled words s hit rest filled (rw (miss, match_at) at h)
  | inr ((a, b), found) ↦ ground (arith, word_at-filled w s hit rest full)
]

pub find-filled :
    (words : List Text) (s before hit rest : Text)
    → AreFilled words
    → find words s ≡ some (before, hit, rest)
    → is_empty hit ≡ false
unfolding find
find-filled words [] before hit rest filled h = elim (Option-cases (match_at words [])) [
  | inl miss ↦ absurd (ground (arith))
  | inr ((a, b), found) ↦ ground (arith, match_at-filled words [] a b filled found)
]
find-filled words (c ∷ s) before hit rest filled h = elim (Option-cases (match_at words (c ∷ s))) [
  | inr ((a, b), found) ↦ ground (arith, match_at-filled words (c ∷ s) a b filled found)
  | inl miss ↦ elim (Option-cases (find words s)) [
    | inl none_here ↦ absurd (ground (arith))
    | inr ((a, b, d), found) ↦ ground (arith, find-filled words s a b d filled found)
  ]
]

length-filled : (s : Text) → is_empty s ≡ false → 0 < length s
length-filled [] h = absurd (cc)
length-filled (c ∷ s) h = omega arith

find-shorter :
    (words : List Text) (s before hit rest : Text)
    → AreFilled words
    → find words s ≡ some (before, hit, rest)
    → length rest < length s
find-shorter words s before hit rest filled h =
    let parts = ap length (find-append words s before hit rest h) in
    omega (
      arith,
      parts,
      length-append before (hit ++ rest),
      length-append hit rest,
      length-filled hit (find-filled words s before hit rest filled h),
    )

-- Where no searched word is empty, any two amounts of fuel above the length of the text mark it alike.
mark_text-fuel :
    (words : List Text) (filled : AreFilled words) (tag class : Text) (after : Nodes) (f g : ℕ)
    (s : Text)
    → length s < f
    → length s < g
    → mark_text f words tag class s after ≡ mark_text g words tag class s after
unfolding mark_text
mark_text-fuel words filled tag class after zero g s h k = absurd (omega arith)
mark_text-fuel words filled tag class after (suc f) zero s h k = absurd (omega arith)
mark_text-fuel words filled tag class after (suc f) (suc g) s h k =
    elim (Option-cases (find words s)) [
      | inl miss ↦ rw (mark_text, miss) refl
      | inr ((before, hit, rest), found) ↦
          let shorter = find-shorter words s before hit rest filled found in
          rw
            (
              mark_text,
              found,
              mark_text-fuel words filled tag class after f g rest (omega arith) (omega arith),
            )
            refl
    ]

-- The words that the highlighting searches for are not empty.
pub AreFilled-non_empty : (words : List Text) → AreFilled (non_empty words)
unfolding AreFilled non_empty
AreFilled-non_empty [] = tt
AreFilled-non_empty ([] ∷ ws) = AreFilled-non_empty ws
AreFilled-non_empty ((c ∷ w) ∷ ws) = (refl, AreFilled-non_empty ws)

-- The loop over the matches of a text, which the program runs without a bound, ends: for any searched
-- words, any fuel that is greater than the length of the text marks the text as the fuel of
-- `highlight` does.
pub mark_text-enough :
    (words : List Text) (tag class s : Text) (after : Nodes) (fuel : ℕ)
    → length s < fuel
    → mark_text fuel (non_empty words) tag class s after
      ≡ mark_text (suc (length s)) (non_empty words) tag class s after
mark_text-enough words tag class s after fuel enough =
    mark_text-fuel (non_empty words) (AreFilled-non_empty words) tag class after fuel
      (suc (length s)) s enough (omega arith)
