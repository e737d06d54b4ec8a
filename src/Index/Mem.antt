-- ===== src/Index/Mem.antt =====
-- What the index in memory holds and what it lists.
use athens.Prelude.{
  ℕ, suc, zero, ◌-◌, ◌+◌, ◌≡◌, refl, sym, ap, not, ◌↔◌, ◌∙◌, Bool, true, false, ◌&&◌, ◌||◌, none,
  List, [], ◌∷◌, ◌++◌, ◌==◌, text_eq, text_beq_iff, if◌then◌else◌, Text, leb, ltb, arith,
  Bool-cases, inl, inr,
}
use athens.Errors.{make_error, kind}
use athens.Stash.{index_failure}
use athens.Index.{Line, is_indexed, index, lines_from, lines}

-- The lines that are not before a time, and the first of them.
unfoldable pub not_before : ℕ → List Line → List Line
not_before since [] = []
not_before since (l ∷ all) =
    let rest = not_before since all in if ltb l.timestamp since then rest else l ∷ rest

unfoldable pub first : ℕ → List Line → List Line
first zero all = []
first (suc n) [] = []
first (suc n) (l ∷ all) = l ∷ first n all

first-[] : (n : ℕ) → first n [] ≡ []
unfolding first
first-[] zero = refl
first-[] (suc n) = refl

lines_from_lem :
    (since limit count : ℕ) (all : List Line)
    → lines_from since limit count all ≡ first (limit - count) (not_before since all)
unfolding lines_from not_before first
lines_from_lem since limit count [] = sym (first-[] (limit - count))
lines_from_lem since limit count (l ∷ all) = elim (Bool-cases (leb limit count)) [
  | inl full ↦ let none_left : limit - count ≡ 0 = ground arith in rw (full, none_left) refl
  | inr room ↦ elim (Bool-cases (ltb l.timestamp since)) [
    | inl before ↦ rw (room, before) (lines_from_lem since limit count all)
    | inr after ↦
        let one_more : limit - count ≡ suc (limit - (count + 1)) = ground arith in
        rw (room, after, one_more, lines_from_lem since limit (count + 1) all) refl
  ]
]

-- The index lists the first lines that are not before the time, as many as the limit says, in the
-- order in which they were indexed.
pub lines_lem :
    (since limit : ℕ) (all : List Line) → lines since limit all ≡ first limit (not_before since all)
unfolding lines
lines_lem since limit all =
    lines_from_lem since limit 0 all ∙ ap (λ n. first n (not_before since all)) (omega arith)

is_indexed-append :
    (all : List Line) (l : Line) (mod_path ver : Text)
    → is_indexed (all ++ l ∷ []) mod_path ver
      ≡ (is_indexed all mod_path ver || (l.path == mod_path && l.version == ver))
unfolding is_indexed
is_indexed-append [] l mod_path ver = ground arith
is_indexed-append (k ∷ all) l mod_path ver = ground (arith, is_indexed-append all l mod_path ver)

-- No version of a module stands twice in the index.
unfoldable pub is_once : List Line → Bool
unfolding is_indexed
is_once [] = true
is_once (l ∷ all) = not (is_indexed all l.path l.version) && is_once all

is_once-append :
    (all : List Line) (l : Line)
    → is_once all ≡ true
    → is_indexed all l.path l.version ≡ false
    → is_once (all ++ l ∷ []) ≡ true
unfolding is_once is_indexed
is_once-append [] l h new = refl
is_once-append (k ∷ all) l h new = ground (
  arith,
  is_once-append all l,
  is_indexed-append all l k.path k.version,
  text_beq_iff k.path l.path,
  text_beq_iff l.path k.path,
  text_beq_iff k.version l.version,
  text_beq_iff l.version k.version,
)

-- Indexing a version keeps every version of a module once in the index, and the version is in the
-- index afterwards; the call has an error exactly if it was there before, and that is no failure for
-- the stasher.
pub index_once :
    (now : ℕ) (all : List Line) (mod_path ver : Text)
    → is_once all ≡ true
    → (is_once (index now all mod_path ver).1 ≡ true)
      × (is_indexed (index now all mod_path ver).1 mod_path ver ≡ true)
      × (((index now all mod_path ver).0 ≡ none) ↔ (is_indexed all mod_path ver ≡ false))
      × (index_failure (index now all mod_path ver).0 ≡ none)
unfolding index
index_once now all mod_path ver h = elim (Bool-cases (is_indexed all mod_path ver)) [
  | inl old ↦ rw old (
    h,
    old,
    ((λ q. absurd (cc)), (λ q. absurd (cc))),
    unfold make_error kind index_failure in refl,
  )
  | inr new ↦ rw new (
    is_once-append all _ h new,
    is_indexed-append all _ mod_path ver
        ∙ ground (arith, text_beq_iff mod_path mod_path, text_beq_iff ver ver),
    ((λ q. refl), (λ q. refl)),
    unfold index_failure in refl,
  )
]
