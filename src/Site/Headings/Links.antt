-- ===== src/Site/Headings/Links.antt =====
-- Which headings have a link.
use athens.Prelude.{
  ◌≡◌, refl, ap, ℕ, zero, suc, length, get_elem?, Bool, true, false, ◌||◌, ◌&&◌, some, List, [],
  ◌∷◌, ◌++◌, ◌==◌, text_eq, if◌then◌else◌, Text, text, arith,
}
use athens.Site.Headings.{Sibling, is_subheading, link_of, append_links}

abbrev pub has_h1 : List Sibling → Bool
has_h1 [] = false
has_h1 (s ∷ siblings) = s.tag == text "H1" || has_h1 siblings

or-false : (b : Bool) → (b || false) ≡ b
or-false true = refl
or-false false = refl

or_assoc : (a b c : Bool) → ((a || b) || c) ≡ (a || (b || c))
or_assoc true b c = refl
or_assoc false b c = refl

get_elem?-behind :
    (before : List Sibling) (s : Sibling) (after : List Sibling) (i : ℕ)
    → length before ≡ i
    → get_elem? (before ++ s ∷ after) i ≡ some s
get_elem?-behind [] s after zero h = refl
get_elem?-behind [] s after (suc i) h = absurd (omega arith)
get_elem?-behind (b ∷ before) s after zero h = absurd (omega arith)
get_elem?-behind (b ∷ before) s after (suc i) h = get_elem?-behind before s after i (omega arith)

module _ (encode_uri : Text → Text) (origin pathname : Text) where
  abbrev pub linked : Bool → Sibling → Sibling
  linked behind_h1 s = record {
    tag = s.tag;
    id = s.id;
    anchor =
        if behind_h1 && is_subheading s.tag
        then some (link_of encode_uri origin pathname s.id)
        else s.anchor;
  }

  length-append_links :
      (behind_h1 : Bool) (siblings : List Sibling)
      → length (append_links encode_uri origin pathname behind_h1 siblings) ≡ length siblings
  unfolding append_links
  length-append_links behind_h1 [] = refl
  length-append_links behind_h1 (s ∷ siblings) =
      ap suc (length-append_links (behind_h1 || s.tag == text "H1") siblings)

  append_links-append :
      (behind_h1 : Bool) (before : List Sibling) (s : Sibling) (after : List Sibling)
      → append_links encode_uri origin pathname behind_h1 (before ++ s ∷ after)
        ≡ append_links encode_uri origin pathname behind_h1 before
          ++ linked (behind_h1 || has_h1 before) s
            ∷ append_links encode_uri origin pathname (behind_h1 || has_h1 (before ++ s ∷ [])) after
  unfolding append_links
  append_links-append behind_h1 [] s after =
      rw (or-false behind_h1, or-false (s.tag == text "H1")) refl
  append_links-append behind_h1 (b ∷ before) s after =
      let here = b.tag == text "H1" in
      rw
        (
          append_links-append (behind_h1 || here) before s after,
          or_assoc behind_h1 here (has_h1 before),
          or_assoc behind_h1 here (has_h1 (before ++ s ∷ [])),
        )
        refl

  -- For any elements of one parent, with any number of elements before one of them and behind it: that
  -- element keeps its tag and its id, and gets a link to its id exactly if it is an H2 to H6 and some
  -- element before it is an H1; else what it had is left.
  append_links-linked :
      (before : List Sibling) (s : Sibling) (after : List Sibling)
      → get_elem?
          (append_links encode_uri origin pathname false (before ++ s ∷ after))
          (length before)
        ≡ some (linked (has_h1 before) s)
  append_links-linked before s after = rw (append_links-append false before s after) (
      get_elem?-behind (append_links encode_uri origin pathname false before)
        (linked (has_h1 before) s)
        (append_links encode_uri origin pathname (has_h1 (before ++ s ∷ [])) after) (length before)
        (length-append_links false before))
