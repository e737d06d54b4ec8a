-- ===== src/Site/Suggestions/Context.antt =====
-- When a suggestion has a context, and what it is.
use athens.Prelude.{
  ◌≡◌, refl, ap, false, none, some, [], ◌∷◌, ◌++◌, append_assoc, nat_eq, Text, strip_prefix,
  Option-cases, inl, inr, All, All-append, is_empty, ◌⊎◌,
}
use athens.Site.Links.{occurs}
use athens.Site.Suggestions.{
  Matches, put_before, then_each, context_words, literal, in_context, context_of,
}
use athens.Site.Suggestions.Matching.{
  then_each-Splits, context_words-Splits, literal-Splits, in_context-found,
}

-- The matches hold the term.
abbrev pub HasTerm : Text → Text → Type 0
HasTerm term m = (before : Text) × (behind : Text) × (m ≡ before ++ (term ++ behind))

abbrev HasTermIn : Text → Text × Text → Type 0
HasTermIn term (m, rest) = HasTerm term m

EndsIn : Text → Text × Text → Type 0
EndsIn term (m, rest) = (before : Text) × (m ≡ before ++ term)

literal-EndsIn : (term m rest : Text) → All (EndsIn term) (put_before m (literal term rest))
unfolding EndsIn literal put_before
literal-EndsIn term m rest = elim (Option-cases (strip_prefix term rest)) [
  | inl miss ↦ rw (literal, miss) tt
  | inr (behind, found) ↦ rw (literal, found) ((m, refl), tt)
]

then_each-EndsIn : (term : Text) (ms : Matches) → All (EndsIn term) (then_each ms (literal term))
unfolding then_each
then_each-EndsIn term [] = tt
then_each-EndsIn term ((m, rest) ∷ ms) =
    All-append (EndsIn term) (put_before m (literal term rest)) (then_each ms (literal term))
      (literal-EndsIn term m rest) (then_each-EndsIn term ms)

put_before-HasTerm :
    (term before m : Text) (ms : Matches)
    → m ≡ before ++ term
    → All (HasTermIn term) (put_before m ms)
unfolding put_before
put_before-HasTerm term before m [] h = tt
put_before-HasTerm term before m ((x, rest) ∷ ms) h =
    ((before, x, rw h (append_assoc before term x)), put_before-HasTerm term before m ms h)

then_each-HasTerm :
    (term : Text) (ms : Matches) (next : Text → Matches)
    → All (EndsIn term) ms
    → All (HasTermIn term) (then_each ms next)
unfolding then_each EndsIn
then_each-HasTerm term [] next h = tt
then_each-HasTerm term ((m, rest) ∷ ms) next ((before, e), h) =
    All-append (HasTermIn term) (put_before m (next rest)) (then_each ms next)
      (put_before-HasTerm term before m (next rest) e) (then_each-HasTerm term ms next h)

in_context_sound :
    (term s m rest : Text) (ms : Matches)
    → in_context term s ≡ (m, rest) ∷ ms
    → (s ≡ m ++ rest) × HasTerm term m
unfolding in_context
in_context_sound term s m rest ms h =
    let first = then_each (context_words 2 s) (literal term) in
    let splits =
      then_each-Splits s first (context_words 2)
        (then_each-Splits s (context_words 2 s) (literal term) (context_words-Splits 2 s)
          (literal-Splits term))
        (context_words-Splits 2) in
    let has =
      then_each-HasTerm term first (context_words 2) (then_each-EndsIn term (context_words 2 s)) in
    ((rw h at splits).0, (rw h at has).0)

Matches-cases :
    (ms : Matches)
    → (ms ≡ []) ⊎ ((m : Text) × (rest : Text) × (more : Matches) × (ms ≡ (m, rest) ∷ more))
Matches-cases [] = inl refl
Matches-cases ((m, rest) ∷ more) = inr (m, rest, more, refl)

no_prefix : (term s : Text) → in_context term s ≡ [] → strip_prefix term s ≡ none
no_prefix term s h = elim (Option-cases (strip_prefix term s)) [
  | inl miss ↦ miss
  | inr (rest, found) ↦ absurd (cc (ap is_empty h, in_context-found term s rest found))
]

-- For any term, taken as it is, and any content: there is no context and the term does not occur in
-- the content; or the context is a part of the content, and the term a part of the context.
pub context_of-cases :
    (term content : Text)
    → ((context_of term content ≡ none) × (occurs term content ≡ false))
      ⊎ ((m : Text) × (before : Text) × (behind : Text) × (context_of term content ≡ some m)
          × (content ≡ before ++ (m ++ behind))
          × HasTerm term m)
unfolding context_of occurs
context_of-cases term [] = elim (Matches-cases (in_context term [])) [
  | inl nothing ↦ inl (rw (context_of, nothing) refl, rw (occurs, no_prefix term [] nothing) refl)
  | inr (m, rest, more, found) ↦
      let (splits, has) = in_context_sound term [] m rest more found in
      inr (m, [], rest, rw (context_of, found) refl, splits, has)
]
context_of-cases term (c ∷ content) = elim (Matches-cases (in_context term (c ∷ content))) [
  | inr (m, rest, more, found) ↦
      let (splits, has) = in_context_sound term (c ∷ content) m rest more found in
      inr (m, [], rest, rw (context_of, found) refl, splits, has)
  | inl nothing ↦ elim (context_of-cases term content) [
    | inl (no_context, absent) ↦ inl (
      rw (context_of, nothing) no_context,
      rw (occurs, no_prefix term (c ∷ content) nothing) absent,
    )
    | inr (m, before, behind, found, splits, has) ↦
        inr (m, c ∷ before, behind, rw (context_of, nothing) found, ap (λ t. c ∷ t) splits, has)
  ]
]
