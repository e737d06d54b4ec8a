-- ===== src/Prelude/Maps.antt =====
-- Go's maps, and the plain objects of the scripts, as association lists: a write replaces the
-- value of its key or adds the key at the end, as the scripts' key order has it.
use mathlib.Core.Path.{◌≡◌, refl}
use mathlib.Core.Option.{Option, none, some}
use mathlib.Core.List.{List, [], ◌∷◌}
use native.Mathlib.Omega.{arith}
use athens.Prelude.Tests.{Equality, ◌==◌, if◌then◌else◌}

module _ {ℓ κ} {K : Type ℓ} {V : Type κ} ⦃q : Equality K⦄ where
  unfoldable pub lookup : List (K × V) → K → Option V
  lookup [] key = none
  lookup ((here, value) ∷ table) key = if key == here then some value else lookup table key

  unfoldable pub insert : List (K × V) → K → V → List (K × V)
  insert [] key new = (key, new) ∷ []
  insert ((here, value) ∷ table) key new =
      if key == here then (here, new) ∷ table else (here, value) ∷ insert table key new

  unfoldable pub delete : List (K × V) → K → List (K × V)
  delete [] key = []
  delete ((here, value) ∷ table) key =
      let others = delete table key in if key == here then others else (here, value) ∷ others

  pub lookup-insert :
      (table : List (K × V)) (key : K) (new : V) (asked : K)
      → lookup (insert table key new) asked
        ≡ (if asked == key then some new else lookup table asked)
  unfolding lookup insert
  lookup-insert [] key new asked = refl
  lookup-insert ((here, value) ∷ table) key new asked = ground (
    arith,
    lookup-insert table key new asked,
    q.same_iff asked key,
    q.same_iff asked here,
    q.same_iff key here,
  )

  pub lookup-delete :
      (table : List (K × V)) (key asked : K)
      → lookup (delete table key) asked ≡ (if asked == key then none else lookup table asked)
  unfolding lookup delete
  lookup-delete [] key asked = ground arith
  lookup-delete ((here, value) ∷ table) key asked = ground (
    arith,
    lookup-delete table key asked,
    q.same_iff asked key,
    q.same_iff asked here,
    q.same_iff key here,
  )
