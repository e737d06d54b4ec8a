-- ===== src/Site/SearchBox/Kept.antt =====
-- What one search and one click on the clear button keep.
use athens.Prelude.{
  text_beq, ◌≡◌, refl, ◌∙◌, ℕ, zero, suc, true, false, none, some, List, [], ◌∷◌, text_eq,
  if◌then◌else◌, Text, text, delete, insert, lookup, lookup-insert, lookup-delete, is_empty,
  Bool-cases, inl, inr, All,
}
use athens.Site.Highlight.{Nodes, highlight, non_empty}
use athens.Site.Highlight.Content.{nodes_text, nodes_text-highlight}
use athens.Site.Highlight.Fuel.{AreFilled-non_empty}
use athens.Site.Unhighlight.{Searched, search_input}
use athens.Site.Unhighlight.Content.{
  marks_are_texts, has_no_marks, unhighlight-text, marks_are_texts-unmarked,
}
use athens.Site.Unhighlight.Marks.{is_marked-new, highlight_nodes-marks}
use athens.Site.SearchBox.{Topic, Box, unmatch, display, input, type_value, clear_once, clear_times}

highlight-marks :
    (words : List Text) (page : Nodes)
    → marks_are_texts (text "MARK") (text "highlight") page ≡ true
    → marks_are_texts (text "MARK") (text "highlight") (highlight words (text "MARK") page) ≡ true
unfolding highlight
highlight-marks words page h = elim (Bool-cases (is_empty (non_empty words))) [
  | inl no_words ↦ rw no_words h
  | inr some_words ↦ rw some_words (
      highlight_nodes-marks (non_empty words) (AreFilled-non_empty words) (text "MARK")
        (text "highlight") (is_marked-new (text "MARK")) page h)
]

is_empty-nil : (s : Text) → is_empty s ≡ true → s ≡ []
is_empty-nil [] h = refl
is_empty-nil (c ∷ s) h = absurd (cc)

abbrev pub IsDisplayed : Topic → Type 0
IsDisplayed t = (t.search_match ≡ false) × (t.displayed ≡ true)

display-unmatch : (ts : List Topic) → All IsDisplayed (display (unmatch ts))
unfolding display unmatch
display-unmatch [] = tt
display-unmatch (t ∷ ts) = ((refl, refl), display-unmatch ts)

-- The storage holds the value of the input.
abbrev pub IsStored : Text → Searched → Type 0
IsStored value p =
    lookup p.session (text "search-value") ≡ (if is_empty value then none else some value)

-- The text of the page is the given one, the marks of the page hold texts, and the storage holds the
-- value.
abbrev pub IsKept : Text → Text → Searched → Type 0
IsKept content value p =
    (nodes_text p.content ≡ content)
    × (marks_are_texts (text "MARK") (text "highlight") p.content ≡ true)
    × IsStored value p

-- No mark is left, and all topics are shown.
abbrev pub IsClear : Box → Type 0
IsClear b =
    (b.value ≡ [])
    × (has_no_marks (text "MARK") (text "highlight") b.page.content ≡ true)
    × (b.searched ≡ false)
    × All IsDisplayed b.topics

search_input-IsKept :
    (value : Text) (p : Searched)
    → marks_are_texts (text "MARK") (text "highlight") p.content ≡ true
    → (q : Searched) × (search_input value p ≡ some q)
      × IsKept (nodes_text p.content) value q
      × (is_empty value ≡ true → has_no_marks (text "MARK") (text "highlight") q.content ≡ true)
unfolding search_input text_beq
search_input-IsKept value p h =
    let (plain, done, same, clean) = unhighlight-text (text "MARK") p.content h in
    let sound = marks_are_texts-unmarked (text "MARK") (text "highlight") plain clean in
    elim (Bool-cases (is_empty value)) [
      | inl blank ↦ (
        record { content = plain; session = delete p.session (text "search-value") },
        rw (search_input, done, blank),
        (
          same,
          sound,
          rw blank (lookup-delete p.session (text "search-value") (text "search-value")),
        ),
        λ _. clean,
      )
      | inr some_value ↦ (
        record {
          content = highlight (value ∷ []) (text "MARK") plain;
          session = insert p.session (text "search-value") value;
        },
        rw (search_input, done, some_value),
        (
          nodes_text-highlight (value ∷ []) (text "MARK") plain ∙ same,
          highlight-marks (value ∷ []) plain sound,
          rw some_value (lookup-insert p.session (text "search-value") value (text "search-value")),
        ),
        λ blank. absurd (cc),
      )
    ]

pub type_value-IsKept :
    (value : Text) (b : Box)
    → marks_are_texts (text "MARK") (text "highlight") b.page.content ≡ true
    → (c : Box) × (type_value value b ≡ some c)
      × IsKept (nodes_text b.page.content) value c.page
      × (c.value ≡ value)
      × (c.clear_handlers ≡ (if is_empty value then b.clear_handlers else suc b.clear_handlers))
      × (is_empty value ≡ true → IsClear c)
unfolding type_value input
type_value-IsKept value b h =
    let (q, done, kept, clean) = search_input-IsKept value b.page h in
    elim (Bool-cases (is_empty value)) [
      | inl blank ↦ (
        record {
          page = q;
          value = value;
          topics = display (unmatch b.topics);
          searched = false;
          clear_handlers = b.clear_handlers;
        },
        rw (input, done, blank),
        kept,
        refl,
        rw blank refl,
        λ _. (is_empty-nil value blank, clean blank, refl, display-unmatch b.topics),
      )
      | inr some_value ↦ (
        record {
          page = q;
          value = value;
          topics = unmatch b.topics;
          searched = b.searched;
          clear_handlers = suc b.clear_handlers;
        },
        rw (input, done, some_value),
        kept,
        refl,
        rw some_value refl,
        λ blank. absurd (cc),
      )
    ]

clear_once-IsKept :
    (b : Box)
    → marks_are_texts (text "MARK") (text "highlight") b.page.content ≡ true
    → (c : Box) × (clear_once b ≡ some c) × IsKept (nodes_text b.page.content) [] c.page × IsClear c
unfolding clear_once text_beq
clear_once-IsKept b h =
    let (c, done, (same, sound, stored), value, count, clear_if) = type_value-IsKept [] b h in
    let (blank, clean, shut, shown) = clear_if refl in
    let (plain, done_again, same_again, clean_again) =
      unhighlight-text (text "MARK") c.page.content sound in
    (
      record {
        page = record { content = plain; session = delete c.page.session (text "search-input") };
        value = c.value;
        topics = c.topics;
        searched = c.searched;
        clear_handlers = c.clear_handlers;
      },
      rw (clear_once, done, done_again),
      (
        same_again ∙ same,
        marks_are_texts-unmarked (text "MARK") (text "highlight") plain clean_again,
        lookup-delete c.page.session (text "search-input") (text "search-value") ∙ stored,
      ),
      (blank, clean_again, shut, shown),
    )

pub clear_times-IsClear :
    (n : ℕ) (b : Box)
    → marks_are_texts (text "MARK") (text "highlight") b.page.content ≡ true
    → (c : Box) × (clear_times (suc n) b ≡ some c)
      × IsKept (nodes_text b.page.content) [] c.page
      × IsClear c
unfolding clear_times
clear_times-IsClear zero b h =
    let (c, done, kept, clean) = clear_once-IsKept b h in
    (c, rw (clear_times, done) refl, kept, clean)
clear_times-IsClear (suc n) b h =
    let (c, done, (same, sound, stored), clean) = clear_once-IsKept b h in
    let (d, done_all, (same_d, sound_d, stored_d), clean_d) = clear_times-IsClear n c sound in
    (d, rw (clear_times, done) done_all, (same_d ∙ same, sound_d, stored_d), clean_d)

pub clear_times-IsKept :
    (n : ℕ) (content : Text) (b : Box)
    → IsKept content b.value b.page
    → (c : Box) × (clear_times n b ≡ some c) × IsKept content c.value c.page
unfolding clear_times
clear_times-IsKept zero content b h = (b, refl, h)
clear_times-IsKept (suc n) content b (same, sound, stored) =
    let (c, done, (same_c, sound_c, stored_c), (blank, clean, shut, shown)) =
      clear_times-IsClear n b sound in
    (c, done, (same_c ∙ same, sound_c, rw blank stored_c))
