-- ===== src/Site/Suggestions/Matching.antt =====
-- The matches of the expressions: they make the text with what is behind them, and there are some.
use athens.Prelude.{
  ◌≡◌, refl, ◌∙◌, sym, ℕ, zero, suc, Bool, true, false, some, [], ◌∷◌, ◌++◌, append_assoc, nat_eq,
  Text, strip_prefix, arith, Bool-cases, Option-cases, inl, inr, All, All-append, is_empty, ◌&&◌,
}
use athens.Site.Clipboard.{is_space}
use athens.Site.Suggestions.{
  Matches, put_before, then_each, maybe_space, is_word, word, context_word, context_words, literal,
  in_context,
}

-- A match and what is behind it make the text.
abbrev pub Splits : Text → Text × Text → Type 0
Splits s (m, rest) = s ≡ m ++ rest

put_before-Splits :
    (before s t : Text) (ms : Matches)
    → s ≡ before ++ t
    → All (Splits t) ms
    → All (Splits s) (put_before before ms)
unfolding put_before
put_before-Splits before s t [] h k = tt
put_before-Splits before s t ((m, rest) ∷ ms) h (e, k) =
    (rw (h, e) (sym (append_assoc before m rest)), put_before-Splits before s t ms h k)

pub then_each-Splits :
    (s : Text) (ms : Matches) (next : Text → Matches)
    → All (Splits s) ms
    → ((t : Text) → All (Splits t) (next t))
    → All (Splits s) (then_each ms next)
unfolding then_each
then_each-Splits s [] next h k = tt
then_each-Splits s ((m, rest) ∷ ms) next (e, h) k =
    All-append (Splits s) (put_before m (next rest)) (then_each ms next)
      (put_before-Splits m s rest (next rest) e (k rest)) (then_each-Splits s ms next h k)

maybe_space-Splits : (s : Text) → All (Splits s) (maybe_space s)
unfolding maybe_space
maybe_space-Splits [] = (refl, tt)
maybe_space-Splits (c ∷ s) = elim (Bool-cases (is_space c)) [
  | inl space ↦ rw space (refl, (refl, tt))
  | inr other ↦ rw other (refl, tt)
]

word-Splits : (s : Text) → All (Splits s) (word s)
unfolding word
word-Splits [] = tt
word-Splits (c ∷ s) = elim (Bool-cases (is_word c)) [
  | inl letter ↦ rw letter (
      All-append (Splits (c ∷ s)) (put_before (c ∷ []) (word s)) ((c ∷ [], s) ∷ [])
        (put_before-Splits (c ∷ []) (c ∷ s) s (word s) refl (word-Splits s)) (refl, tt))
  | inr other ↦ rw other tt
]

pub context_words-Splits : (n : ℕ) (s : Text) → All (Splits s) (context_words n s)
unfolding context_words context_word
context_words-Splits zero s = (refl, tt)
context_words-Splits (suc n) s =
    All-append (Splits s) (then_each (context_word s) (context_words n)) (([], s) ∷ [])
      (then_each-Splits s (context_word s) (context_words n)
        (then_each-Splits s (then_each (maybe_space s) word) maybe_space
          (then_each-Splits s (maybe_space s) word (maybe_space-Splits s) word-Splits)
          maybe_space-Splits)
        (context_words-Splits n))
      (refl, tt)

strip_prefix-append : (p s rest : Text) → strip_prefix p s ≡ some rest → s ≡ p ++ rest
unfolding strip_prefix
strip_prefix-append [] s rest h = ground arith
strip_prefix-append (c ∷ p) [] rest h = absurd (cc)
strip_prefix-append (c ∷ p) (d ∷ s) rest h = ground (arith, strip_prefix-append p s rest)

pub literal-Splits : (term s : Text) → All (Splits s) (literal term s)
unfolding literal
literal-Splits term s = elim (Option-cases (strip_prefix term s)) [
  | inl miss ↦ rw (literal, miss) tt
  | inr (rest, found) ↦ rw (literal, found) (strip_prefix-append term s rest found, tt)
]

and-false : (b : Bool) → (b && false) ≡ false
and-false true = refl
and-false false = refl

-- Whether there is a match.
is_empty-append : (ms ns : Matches) → is_empty (ms ++ ns) ≡ (is_empty ms && is_empty ns)
is_empty-append [] ns = refl
is_empty-append (m ∷ ms) ns = refl

is_empty-put_before : (before : Text) (ms : Matches) → is_empty (put_before before ms) ≡ is_empty ms
unfolding put_before
is_empty-put_before before [] = refl
is_empty-put_before before ((m, rest) ∷ ms) = refl

is_empty-context_words : (n : ℕ) (s : Text) → is_empty (context_words n s) ≡ false
unfolding context_words
is_empty-context_words zero s = refl
is_empty-context_words (suc n) s =
    rw (is_empty-append (then_each (context_word s) (context_words n)) (([], s) ∷ []))
      (ground arith)

is_empty-then_each_words :
    (n : ℕ) (ms : Matches) → is_empty (then_each ms (context_words n)) ≡ is_empty ms
unfolding then_each
is_empty-then_each_words n [] = refl
is_empty-then_each_words n ((m, rest) ∷ ms) =
    rw
      (
        is_empty-append (put_before m (context_words n rest)) (then_each ms (context_words n)),
        is_empty-put_before m (context_words n rest),
        is_empty-context_words n rest,
      )
      refl

is_empty-then_each_end :
    (ms : Matches) (s m rest : Text) (next : Text → Matches)
    → next s ≡ (m, rest) ∷ []
    → is_empty (then_each (ms ++ ([], s) ∷ []) next) ≡ false
unfolding then_each put_before
is_empty-then_each_end [] s m rest next h = rw h refl
is_empty-then_each_end ((a, b) ∷ ms) s m rest next h =
    rw
      (
        is_empty-append (put_before a (next b)) (then_each (ms ++ ([], s) ∷ []) next),
        is_empty-then_each_end ms s m rest next h,
      )
      (and-false (is_empty (put_before a (next b))))

pub in_context-found :
    (term s rest : Text) → strip_prefix term s ≡ some rest → is_empty (in_context term s) ≡ false
unfolding in_context literal context_words
in_context-found term s rest h =
    is_empty-then_each_words 2 (then_each (context_words 2 s) (literal term))
    ∙ is_empty-then_each_end (then_each (context_word s) (context_words 1)) s term rest
        (literal term) (rw (literal, h) refl)
