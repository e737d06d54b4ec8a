-- ===== src/Download/Versions/Laws.antt =====
-- The lists as sets: what stands in them, each version once.
use athens.Prelude.{
  ◌≡◌, refl, false, ◌&&◌, ◌||◌, not, List, [], ◌∷◌, ◌++◌, text_eq, Text, contains, contains-append,
  IsDistinct, arith, inl, inr, text_beq_iff, Bool-cases, ◌∙◌,
}
use athens.Download.Versions.{is_pseudo_version, remove_pseudo_versions, union_from, union}

-- What is left are the versions that are no pseudo versions.
pub contains-remove_pseudo_versions :
    (vers : List Text) (v : Text)
    → contains (remove_pseudo_versions vers) v ≡ (contains vers v && not (is_pseudo_version v))
unfolding contains remove_pseudo_versions
contains-remove_pseudo_versions [] v = refl
contains-remove_pseudo_versions (w ∷ vers) v =
    ground (arith, text_beq_iff w v, contains-remove_pseudo_versions vers v)

contains-union_from :
    (unique vs : List Text) (v : Text)
    → contains (union_from unique vs) v ≡ (contains unique v || contains vs v)
unfolding union_from
contains-union_from unique [] v = unfold contains in ground arith
contains-union_from unique (w ∷ vs) v = elim (Bool-cases (contains unique w)) [
  | inl old ↦
      rw old
        (contains-union_from unique vs v ∙ (unfold contains in ground (arith, text_beq_iff w v)))
  | inr new ↦ rw new (
      contains-union_from (unique ++ w ∷ []) vs v
      ∙ rw contains-append (unfold contains in ground (arith, text_beq_iff w v)))
]

IsDistinct-concat :
    (xs : List Text) (v : Text) → IsDistinct xs → contains xs v ≡ false → IsDistinct (xs ++ v ∷ [])
unfolding contains
IsDistinct-concat [] v h new = (refl, tt)
IsDistinct-concat (x ∷ xs) v (once, h) new = (
  contains-append xs (v ∷ []) x ∙ ground (arith, text_beq_iff x v, text_beq_iff v x),
  IsDistinct-concat xs v h (ground arith),
)

union_from-IsDistinct :
    (unique vs : List Text) → IsDistinct unique → IsDistinct (union_from unique vs)
unfolding union_from
union_from-IsDistinct unique [] h = h
union_from-IsDistinct unique (v ∷ vs) h = elim (Bool-cases (contains unique v)) [
  | inl old ↦ rw old (union_from-IsDistinct unique vs h)
  | inr new ↦
      rw new (union_from-IsDistinct (unique ++ v ∷ []) vs (IsDistinct-concat unique v h new))
]

-- The union holds exactly the versions of either list.
pub contains-union :
    (list1 list2 : List Text) (v : Text)
    → contains (union list1 list2) v ≡ (contains list1 v || contains list2 v)
unfolding union contains
contains-union list1 list2 v =
    contains-union_from [] (list1 ++ list2) v ∙ contains-append list1 list2 v

-- The union holds no version twice.
pub union-IsDistinct : (list1 list2 : List Text) → IsDistinct (union list1 list2)
unfolding union
union-IsDistinct list1 list2 = union_from-IsDistinct [] (list1 ++ list2) tt
