-- ===== src/Site/SearchBox/Restored.antt =====
-- The search that a page takes up again.
use athens.Prelude.{
  ◌≡◌, refl, sym, ◌⊎◌, inl, inr, ℕ, true, false, some, nat_eq, text_eq, Text, text, lookup,
  is_empty, Bool-cases, Option-cases,
}
use athens.Site.Highlight.{text_node, element, Nodes, end, child}
use athens.Site.Highlight.Content.{nodes_text}
use athens.Site.Unhighlight.Content.{marks_are_texts}
use athens.Site.SearchBox.{contains_text, first_containing, below_bar, Ready, restore_search}
use athens.Site.SearchBox.Kept.{IsKept, type_value-IsKept}

some-injective : (a b : Nodes) → some a ≡ some b → a ≡ b
some-injective a b h = cc

-- An element that is found contains the text.
first_containing-contains :
    (arg : Text) (ns found : Nodes)
    → first_containing arg ns ≡ some found
    → contains_text arg (nodes_text found) ≡ true
unfolding first_containing
first_containing-contains arg end found h = absurd (cc)
first_containing-contains arg (child (text_node s) ns) found h =
    first_containing-contains arg ns found h
first_containing-contains arg (child (element t c kids) ns) found h =
    elim (Bool-cases (contains_text arg (nodes_text kids))) [
      | inl here ↦ rw (sym (some-injective kids found (rw (first_containing, here) at h))) here
      | inr not_here ↦ elim (Option-cases (first_containing arg kids)) [
        | inl outside ↦ first_containing-contains arg ns found (rw (not_here, outside) at h)
        | inr (inside, there) ↦
            rw (sym (some-injective inside found (rw (first_containing, not_here, there) at h)))
              (first_containing-contains arg kids inside there)
      ]
    ]

module _ (body_inner : Nodes → Nodes) (scroll_into_view : Nodes → ℕ) where
  -- For a page whose marks hold texts, and a stored search value that is not empty, that the page
  -- takes up when it is ready: the box has the value and is shown, the page keeps its text, and the
  -- window stays where it is, or goes to 125 pixels above the place of an element that contains the
  -- value in any case.
  restore_search-stored :
      (value : Text) (r : Ready)
      → lookup r.box.page.session (text "search-value") ≡ some value
      → is_empty value ≡ false
      → marks_are_texts (text "MARK") (text "highlight") r.box.page.content ≡ true
      → (q : Ready) × (restore_search body_inner scroll_into_view r ≡ some q)
        × IsKept (nodes_text r.box.page.content) value q.box.page
        × (q.box.value ≡ value)
        × (q.searchbox_hidden ≡ false)
        × ((q.scroll_y ≡ r.scroll_y)
            ⊎ ((found : Nodes) × (contains_text value (nodes_text found) ≡ true)
                × (q.scroll_y ≡ below_bar (scroll_into_view found))))
  unfolding restore_search
  restore_search-stored value r stored some_value h =
      let (box, done, kept, value_b, count, clean) = type_value-IsKept value r.box h in
      elim (Option-cases (first_containing value (body_inner box.page.content))) [
        | inl nowhere ↦ (
          record { box = box; searchbox_hidden = false; scroll_y = r.scroll_y },
          rw (stored, some_value, done, nowhere) refl,
          kept,
          value_b,
          refl,
          inl refl,
        )
        | inr (found, there) ↦ (
          record {
            box = box;
            searchbox_hidden = false;
            scroll_y = below_bar (scroll_into_view found);
          },
          rw (stored, some_value, done, there) refl,
          kept,
          value_b,
          refl,
          inr (
            found,
            first_containing-contains value (body_inner box.page.content) found there,
            refl,
          ),
        )
      ]
