-- ===== src/Storage/Objects/Rounds/Ends.antt =====
-- Whether the loop over the pages of a bucket ends.
use athens.Prelude.{
  ◌≡◌, refl, ap, ◌∙◌, ℕ, zero, suc, ◌-◌, ◌≤◌, ◌<◌, true, false, Option, none, some, List, [], ◌∷◌,
  nat_eq, Text, text, length, length-append, is_empty, arith, Bool-cases, inl, inr,
}
use athens.Errors.{GoError, Result-cases, Result, ok, err}
use athens.Paths.{AllPathParams}
use athens.Storage.Objects.{listed_objects}
use athens.Storage.Objects.Rounds.{Listing, fetch_mods_and_versions, add_page, s3_catalog}

-- A page gives a version exactly if it lists one.
is_empty-fetch :
    (objects : List Text) (n : ℕ) (last_key : Text)
    → is_empty (fetch_mods_and_versions objects n last_key).0
      ≡ is_empty (listed_objects (text "s3.parseS3Key") objects)
unfolding fetch_mods_and_versions listed_objects
is_empty-fetch [] n last_key = refl
is_empty-fetch (key ∷ objects) n last_key = ground (arith, is_empty-fetch objects n last_key)

length-fetch :
    (objects : List Text) (n : ℕ) (last_key : Text)
    → 0 < n
    → length (fetch_mods_and_versions objects n last_key).0 ≤ n
unfolding fetch_mods_and_versions
length-fetch [] n last_key h = omega arith
length-fetch (key ∷ objects) n last_key h =
    ground (arith, length-fetch objects n last_key h, length-fetch objects (n - 1) key)

-- No more versions than were asked for.
abbrev pub HasAtMost : ℕ → Result (List AllPathParams × Text) → Type 0
HasAtMost n (err e) = Unit
HasAtMost n (ok (res, token)) = length res ≤ n

-- The loop has ended, and with no more versions than that.
abbrev pub EndsWithin : ℕ → Option (Result (List AllPathParams × Text)) → Type 0
EndsWithin n none = ⊥
EndsWithin n (some r) = HasAtMost n r

EndsWithin-add_page :
    (m : List AllPathParams) (count : ℕ) (rest : Option (Result (List AllPathParams × Text)))
    → length m ≤ count
    → EndsWithin (count - length m) rest
    → EndsWithin count (add_page m rest)
EndsWithin-add_page m count none fits h = h
EndsWithin-add_page m count (some (err e)) fits h = tt
EndsWithin-add_page m count (some (ok (res, token))) fits h = omega (arith, length-append m res)

s3_catalog-round :
    (objects : Text → Result Listing) (loo : Listing) (fuel n : ℕ) (token : Text)
    → objects token ≡ ok loo
    → loo.is_truncated ≡ true
    → s3_catalog (suc fuel) objects token (suc n)
      ≡ add_page (fetch_mods_and_versions loo.contents (suc n) []).0 (
          s3_catalog fuel objects
            (fetch_mods_and_versions loo.contents (suc n) []).1
            (suc n - length (fetch_mods_and_versions loo.contents (suc n) []).0))
unfolding s3_catalog
s3_catalog-round objects loo fuel n token listed more = ground arith

s3_catalog-last :
    (objects : Text → Result Listing) (loo : Listing) (fuel n : ℕ) (token : Text)
    → objects token ≡ ok loo
    → loo.is_truncated ≡ false
    → EndsWithin (suc n) (s3_catalog (suc fuel) objects token (suc n))
unfolding s3_catalog
s3_catalog-last objects loo fuel n token listed last =
    ground (arith, length-fetch loo.contents (suc n) [])

s3_catalog-fails :
    (objects : Text → Result Listing) (e : GoError) (fuel n : ℕ) (token : Text)
    → objects token ≡ err e
    → EndsWithin (suc n) (s3_catalog (suc fuel) objects token (suc n))
unfolding s3_catalog
s3_catalog-fails objects e fuel n token listed = ground arith

none_left : (n : ℕ) → suc n - 0 ≡ suc n
none_left n = omega arith

length-filled : {A : Type 0} (xs : List A) → is_empty xs ≡ false → 0 < length xs
length-filled [] h = absurd (ground arith)
length-filled (x ∷ xs) h = omega arith

module _ (objects : Text → Result Listing)
    (lists : (token : Text) (loo : Listing)
      → objects token ≡ ok loo
      → loo.is_truncated ≡ true
      → is_empty (listed_objects (text "s3.parseS3Key") loo.contents) ≡ false) where
  -- Where every page that is not the last one lists a version, the catalog of a bucket ends within
  -- as many rounds as versions are asked for, and one for the test that ends the loop, and lists no more versions than those.
  pub s3_catalog-ends :
      (fuel : ℕ) (token : Text) (count : ℕ)
      → count < fuel
      → EndsWithin count (s3_catalog fuel objects token count)
  unfolding s3_catalog
  s3_catalog-ends zero token count h = absurd (omega arith)
  s3_catalog-ends (suc fuel) token zero h = omega arith
  s3_catalog-ends (suc fuel) token (suc n) h = elim (Result-cases (objects token)) [
    | inr (e, listed) ↦ s3_catalog-fails objects e fuel n token listed
    | inl (loo, listed) ↦ elim (Bool-cases loo.is_truncated) [
      | inr last ↦ s3_catalog-last objects loo fuel n token listed last
      | inl more ↦
          let found : length (fetch_mods_and_versions loo.contents (suc n) []).0 ≤ suc n =
            length-fetch loo.contents (suc n) [] (omega arith) in
          let some_found : 0 < length (fetch_mods_and_versions loo.contents (suc n) []).0 =
            length-filled (fetch_mods_and_versions loo.contents (suc n) []).0
              (is_empty-fetch loo.contents (suc n) [] ∙ lists token loo listed more) in
          rw (s3_catalog-round objects loo fuel n token listed more) (
            EndsWithin-add_page (fetch_mods_and_versions loo.contents (suc n) []).0 (suc n)
              (s3_catalog fuel objects (fetch_mods_and_versions loo.contents (suc n) []).1
                (suc n - length (fetch_mods_and_versions loo.contents (suc n) []).0))
              found
              (s3_catalog-ends fuel (fetch_mods_and_versions loo.contents (suc n) []).1
                (suc n - length (fetch_mods_and_versions loo.contents (suc n) []).0)
                (omega (arith, h, found, some_found))))
    ]
  ]

fetch-nothing :
    (objects : List Text) (n : ℕ) (last_key : Text)
    → is_empty (listed_objects (text "s3.parseS3Key") objects) ≡ true
    → fetch_mods_and_versions objects n last_key ≡ ([], last_key)
unfolding fetch_mods_and_versions listed_objects
fetch-nothing [] n last_key h = refl
fetch-nothing (key ∷ objects) n last_key h = ground (arith, fetch-nothing objects n last_key)

-- Where the first page is not the last one and lists no version, the catalog of a bucket never ends.
pub s3_catalog-stuck :
    (objects : Text → Result Listing) (loo : Listing) (fuel count : ℕ)
    → objects [] ≡ ok loo
    → loo.is_truncated ≡ true
    → is_empty (listed_objects (text "s3.parseS3Key") loo.contents) ≡ true
    → 0 < count
    → s3_catalog fuel objects [] count ≡ none
unfolding s3_catalog
s3_catalog-stuck objects loo zero count listed more nothing h = refl
s3_catalog-stuck objects loo (suc fuel) zero listed more nothing h = absurd (omega arith)
s3_catalog-stuck objects loo (suc fuel) (suc n) listed more nothing h =
    s3_catalog-round objects loo fuel n [] listed more
    ∙ rw (fetch-nothing loo.contents (suc n) [] nothing, none_left n)
        (ap (add_page [])
          (s3_catalog-stuck objects loo fuel (suc n) listed more nothing (omega arith)))
