-- ===== src/Site/SearchBox/Runs.antt =====
-- What any use of the search box keeps.
use athens.Prelude.{◌≡◌, refl, ◌∙◌, true, false, some, List, [], ◌∷◌, text_eq, Text, text, is_empty}
use athens.Site.Highlight.Content.{nodes_text}
use athens.Site.Unhighlight.Content.{marks_are_texts}
use athens.Site.SearchBox.{Box, clear_times, clear, Action, typed, cleared, act, act_all}
use athens.Site.SearchBox.Kept.{
  IsKept, IsClear, type_value-IsKept, clear_times-IsKept, clear_times-IsClear,
}

act-IsKept :
    (a : Action) (content : Text) (b : Box)
    → IsKept content b.value b.page
    → (c : Box) × (act a b ≡ some c) × IsKept content c.value c.page
unfolding act clear clear_times
act-IsKept (typed value) content b (same, sound, stored) =
    let (c, done, (same_c, sound_c, stored_c), value_c, count, clean) =
      type_value-IsKept value b sound in
    (c, done, (same_c ∙ same, sound_c, rw value_c stored_c))
act-IsKept cleared content b h = clear_times-IsKept b.clear_handlers content b h

-- For a page whose marks hold texts and a storage that holds the value of the search box, and any
-- searches and clicks on the clear button after it: no handler throws, the text of the page stays as
-- it was, the marks still hold texts, and the storage holds the value of the box under
-- "search-value", or nothing where the value is empty.
pub act_all-IsKept :
    (actions : List Action) (content : Text) (b : Box)
    → IsKept content b.value b.page
    → (c : Box) × (act_all actions b ≡ some c) × IsKept content c.value c.page
unfolding act_all
act_all-IsKept [] content b h = (b, refl, h)
act_all-IsKept (a ∷ actions) content b h =
    let (c, done, kept) = act-IsKept a content b h in
    let (d, done_all, kept_d) = act_all-IsKept actions content c kept in
    (d, rw (act_all, done) done_all, kept_d)

-- A click on the clear button after a search for a text that is not empty, on a page whose marks hold
-- texts: neither throws, the box is empty, no mark is left on the page, which keeps its text, nothing is stored under
-- "search-value", and all topics are displayed without a match, however many handlers the clear button
-- has.
pub search_cleared :
    (value : Text) (b : Box)
    → is_empty value ≡ false
    → marks_are_texts (text "MARK") (text "highlight") b.page.content ≡ true
    → (c : Box) × (act_all (typed value ∷ cleared ∷ []) b ≡ some c)
      × IsKept (nodes_text b.page.content) [] c.page
      × IsClear c
unfolding act_all act clear
search_cleared value b some_value h =
    let (c, done, (same, sound, stored), value_c, count, clean) = type_value-IsKept value b h in
    let (d, cleared_all, (same_d, sound_d, stored_d), clear_d) =
      clear_times-IsClear b.clear_handlers c sound in
    (
      d,
      rw (act_all, act, done, clear, count, some_value, cleared_all) refl,
      (same_d ∙ same, sound_d, stored_d),
      clear_d,
    )
