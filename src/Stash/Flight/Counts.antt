-- ===== src/Stash/Flight/Counts.antt =====
-- How often a channel waits and was answered.
use athens.Prelude.{
  ◌≡◌, refl, ap, ℕ, ◌+◌, false, ◌||◌, none, some, List, [], ◌∷◌, ◌++◌, ◌==◌, text_eq, nat_eq,
  if◌then◌else◌, ltb, Text, lookup, insert, delete, contains, IsDistinct, arith, text_beq_iff,
  Bool-cases, inl, inr,
}
use mathlib.Core.List.{map}
use athens.Errors.{Result}
use athens.Stash.Flight.{State, waiting}
use athens.Stash.Flight.Invariant.{is_some}

abbrev pub Subs : Type 0
Subs = List (Text × List ℕ)

abbrev pub names : Subs → List Text
names [] = []
names ((k, chans) ∷ subs) = k ∷ names subs

-- How often a channel stands in a list, and how many responses it was sent.
abbrev pub times : ℕ → List ℕ → ℕ
times chan [] = 0
times chan (c ∷ chans) = (if chan == c then 1 else 0) + times chan chans

abbrev pub answers : ℕ → List (ℕ × Result Text) → ℕ
answers chan [] = 0
answers chan ((c, r) ∷ sent) = (if chan == c then 1 else 0) + answers chan sent

pub times-append :
    (chan : ℕ) (xs ys : List ℕ) → times chan (xs ++ ys) ≡ times chan xs + times chan ys
times-append chan [] ys = omega arith
times-append chan (x ∷ xs) ys = omega (arith, times-append chan xs ys)

pub answers-append :
    (chan : ℕ) (xs ys : List (ℕ × Result Text))
    → answers chan (xs ++ ys) ≡ answers chan xs + answers chan ys
answers-append chan [] ys = omega arith
answers-append chan ((c, r) ∷ xs) ys = omega (arith, answers-append chan xs ys)

pub answers-map :
    (chan : ℕ) (r : Result Text) (chans : List ℕ)
    → answers chan (map (λ c. (c, r)) chans) ≡ times chan chans
answers-map chan r [] = refl
answers-map chan r (c ∷ chans) =
    ap (λ n. (if chan == c then 1 else 0) + n) (answers-map chan r chans)

contains-names-insert :
    (subs : Subs) (k : Text) (chans : List ℕ) (j : Text)
    → contains (names (insert subs k chans)) j ≡ (contains (names subs) j || j == k)
unfolding insert contains
contains-names-insert [] k chans j = ground (arith, text_beq_iff j k, text_beq_iff k j)
contains-names-insert ((i, old) ∷ subs) k chans j = ground (
  arith,
  contains-names-insert subs k chans j,
  text_beq_iff k i,
  text_beq_iff i j,
  text_beq_iff j k,
)

pub insert-IsDistinct :
    (subs : Subs) (k : Text) (chans : List ℕ)
    → IsDistinct (names subs)
    → IsDistinct (names (insert subs k chans))
unfolding insert contains
insert-IsDistinct [] k chans h = (refl, tt)
insert-IsDistinct ((i, old) ∷ subs) k chans (once, h) = elim (Bool-cases (k == i)) [
  | inl same ↦ rw same (once, h)
  | inr other ↦ rw other (
    ground (arith, contains-names-insert subs k chans i, text_beq_iff i k, text_beq_iff k i),
    insert-IsDistinct subs k chans h,
  )
]

contains-names-delete :
    (subs : Subs) (k j : Text)
    → contains (names subs) j ≡ false
    → contains (names (delete subs k)) j ≡ false
unfolding delete contains
contains-names-delete [] k j h = refl
contains-names-delete ((i, old) ∷ subs) k j h = ground (arith, contains-names-delete subs k j)

pub delete-IsDistinct :
    (subs : Subs) (k : Text) → IsDistinct (names subs) → IsDistinct (names (delete subs k))
unfolding delete
delete-IsDistinct [] k h = tt
delete-IsDistinct ((i, old) ∷ subs) k (once, h) = elim (Bool-cases (k == i)) [
  | inl same ↦ rw same (delete-IsDistinct subs k h)
  | inr other ↦ rw other (contains-names-delete subs k i once, delete-IsDistinct subs k h)
]

module _ (chan : ℕ) where
  -- How often a channel waits, and how often under one key.
  abbrev pub total : Subs → ℕ
  total [] = 0
  total ((k, chans) ∷ subs) = times chan chans + total subs

  abbrev pub held : Subs → Text → ℕ
  held subs k = elim (lookup subs k) [ none ↦ 0 | some chans ↦ times chan chans ]

  pub total-insert :
      (subs : Subs) (k : Text) (chans : List ℕ)
      → total (insert subs k chans) + held subs k ≡ total subs + times chan chans
  unfolding insert lookup
  total-insert [] k chans = omega arith
  total-insert ((i, old) ∷ subs) k chans = ground (arith, total-insert subs k chans)

  total-delete_absent :
      (subs : Subs) (k : Text)
      → contains (names subs) k ≡ false
      → total (delete subs k) ≡ total subs
  unfolding delete contains
  total-delete_absent [] k h = refl
  total-delete_absent ((i, old) ∷ subs) k h =
      ground (arith, total-delete_absent subs k, text_beq_iff i k, text_beq_iff k i)

  pub total-delete :
      (subs : Subs) (k : Text)
      → IsDistinct (names subs)
      → total (delete subs k) + held subs k ≡ total subs
  unfolding delete lookup
  total-delete [] k h = refl
  total-delete ((i, old) ∷ subs) k (once, h) =
      ground (arith, total-delete subs k h, total-delete_absent subs k, text_beq_iff k i)

  pub held-waiting :
      {T : Type 0} (st : State T) (k : Text) → times chan (waiting st k) ≡ held st.subs k
  unfolding waiting
  held-waiting st k = ground arith

  pub total_idle : (subs : Subs) → ((mv : Text) → is_some (lookup subs mv) ≡ false) → total subs ≡ 0
  unfolding lookup
  total_idle [] h = refl
  total_idle ((k, chans) ∷ subs) h = absurd (ground (arith, h k, text_beq_iff k k))

-- Whether a channel was made, as a number.
abbrev pub made : ℕ → ℕ → ℕ
made chan count = if ltb chan count then 1 else 0

pub made_next : (chan count : ℕ) → made chan (count + 1) ≡ made chan count + times chan (count ∷ [])
made_next chan count = ground arith
