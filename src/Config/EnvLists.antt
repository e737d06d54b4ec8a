-- ===== src/Config/EnvLists.antt =====
-- The keys of the environment lists.
use athens.Prelude.{
  ◌≡◌, refl, ◌∙◌, Bool, true, false, ◌||◌, none, [], ◌∷◌, ◌++◌, nat_eq, Text, text, contains, arith,
  Bool-cases, inl, inr, All,
}
use athens.Errors.{has_prefix}
use athens.Config.{EnvList, has_key, add, validate}

has_prefix-append : (s t : Text) → has_prefix (s ++ t) s ≡ true
unfolding has_prefix
has_prefix-append [] t = refl
has_prefix-append (c ∷ s) t = ground (arith, has_prefix-append s t)

has_key-append :
    (el more : EnvList) (key : Text)
    → has_key (el ++ more) key ≡ (has_key el key || has_key more key)
unfolding has_key
has_key-append [] more key = refl
has_key-append (env ∷ el) more key = ground (arith, has_key-append el more key)

or-true : (b : Bool) → (b || true) ≡ true
or-true true = refl
or-true false = refl

-- An added key is there.
add-has_key : (el : EnvList) (key value : Text) → has_key (add el key value) key ≡ true
unfolding has_key
add-has_key el key value =
    has_key-append el ((key ++ text "=" ++ value) ∷ []) key
    ∙ rw (has_key, has_prefix-append (key ++ text "=") value) (or-true (has_key el key))

-- Every entry has an equals sign.
abbrev pub HasEquals : Text → Type 0
HasEquals env = contains env b'=' ≡ true

validate-All : (el : EnvList) → validate el ≡ none → All HasEquals el
unfolding validate
validate-All [] h = tt
validate-All (env ∷ el) h = elim (Bool-cases (contains env b'=')) [
  | inl equals ↦ (equals, validate-All el (rw (validate, equals) at h))
  | inr other ↦ absurd (cc (rw (validate, other) at h))
]

All-validate : (el : EnvList) → All HasEquals el → validate el ≡ none
unfolding validate
All-validate [] h = refl
All-validate (env ∷ el) (equals, h) = rw (validate, equals) (All-validate el h)
