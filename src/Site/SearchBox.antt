-- ===== src/Site/SearchBox.antt =====
-- learn.js: the search box with the handlers of its input and of its clear button, and the search that
-- is taken up again when a page is ready. `ajax` is never assigned, so that nothing is aborted.
pub mod Kept
pub mod Runs
pub mod Restored
use athens.Prelude.{
  ℕ, zero, suc, ◌-◌, Bool, true, false, Option, none, some, List, [], ◌∷◌, ◌==◌, nat_eq, text_eq,
  if◌then◌else◌, Text, text, delete, is_empty, lookup,
}
use athens.Site.Highlight.{Node, text_node, element, Nodes, end, child, upper}
use athens.Site.Highlight.Content.{nodes_text}
use athens.Site.Unhighlight.{Searched, search_input, unhighlight}
use athens.Site.Links.{occurs}

-- An element with "data-nav-id": the class "search-match", and whether it is shown.
pub record Topic : Type 0 where
  pub search_match : Bool
  pub displayed : Bool

-- The content and the storage, the value of the input, the elements, the class "searched" of
-- "ul.topics", and the handlers that the clear button has got: one more at each search.
pub record Box : Type 0 where
  pub page : Searched
  pub value : Text
  pub topics : List Topic
  pub searched : Bool
  pub clear_handlers : ℕ

unfoldable pub unmatch : List Topic → List Topic
unmatch [] = []
unmatch (t ∷ ts) = record { search_match = false; displayed = t.displayed } ∷ unmatch ts

unfoldable pub display : List Topic → List Topic
display [] = []
display (t ∷ ts) = record { search_match = t.search_match; displayed = true } ∷ display ts

-- The handler of "input", for the value that the input has; none where a call throws.
unfoldable pub input : Box → Option Box
unfolding search_input unmatch display
input b = elim (search_input b.value b.page) [
  | none ↦ none
  | some page ↦ some (
      if is_empty b.value
      then record {
        page = page;
        value = b.value;
        topics = display (unmatch b.topics);
        searched = false;
        clear_handlers = b.clear_handlers;
      }
      else record {
        page = page;
        value = b.value;
        topics = unmatch b.topics;
        searched = b.searched;
        clear_handlers = suc b.clear_handlers;
      })
]

unfoldable pub type_value : Text → Box → Option Box
unfolding input
type_value value b = input record {
  page = b.page;
  value = value;
  topics = b.topics;
  searched = b.searched;
  clear_handlers = b.clear_handlers;
}

-- One handler of a click on "[data-search-clear]".
unfoldable pub clear_once : Box → Option Box
unfolding type_value unhighlight
clear_once b = elim (type_value [] b) [
  | none ↦ none
  | some c ↦ elim (unhighlight (text "MARK") c.page.content) [
    | none ↦ none
    | some plain ↦ some record {
      page = record { content = plain; session = delete c.page.session (text "search-input") };
      value = c.value;
      topics = c.topics;
      searched = c.searched;
      clear_handlers = c.clear_handlers;
    }
  ]
]

unfoldable pub clear_times : ℕ → Box → Option Box
unfolding clear_once
clear_times zero b = some b
clear_times (suc n) b = elim (clear_once b) [ none ↦ none | some c ↦ clear_times n c ]

-- A click on the clear button calls all the handlers that it has.
unfoldable pub clear : Box → Option Box
unfolding clear_times
clear b = clear_times b.clear_handlers b

pub data Action : Type 0 where
  typed : Text → Action
  cleared : Action

unfoldable pub act : Action → Box → Option Box
unfolding type_value clear
act (typed value) b = type_value value b
act cleared b = clear b

unfoldable pub act_all : List Action → Box → Option Box
unfolding act
act_all [] b = some b
act_all (a ∷ actions) b = elim (act a b) [ none ↦ none | some c ↦ act_all actions c ]

unfoldable pub upper_text : Text → Text
unfolding upper
upper_text [] = []
upper_text (c ∷ s) = upper c ∷ upper_text s

-- The selector ":contains(…)" as learn.js redefines it, on the text of an element.
unfoldable pub contains_text : Text → Text → Bool
unfolding occurs upper_text
contains_text arg content = occurs (upper_text arg) (upper_text content)

-- `find(':contains(…)').get(0)`: the first element in the order of the document, as its children.
unfoldable pub first_containing : Text → Nodes → Option Nodes
unfolding contains_text nodes_text
first_containing arg end = none
first_containing arg (child (text_node s) ns) = first_containing arg ns
first_containing arg (child (element t c kids) ns) =
    let inside = first_containing arg kids in
    let behind = first_containing arg ns in
    if contains_text arg (nodes_text kids)
    then some kids
    else elim inside [ some found ↦ some found | none ↦ behind ]

-- `if(scrolledY) window.scroll(0, scrolledY - 125)`; a window does not scroll above its top.
abbrev pub below_bar : ℕ → ℕ
below_bar scrolled_y = if scrolled_y == 0 then scrolled_y else scrolled_y - 125

-- The box, the class "searchbox-hidden" of the body, and the place of the window.
pub record Ready : Type 0 where
  pub box : Box
  pub searchbox_hidden : Bool
  pub scroll_y : ℕ

-- The search of a page that is ready. body_inner is the content of "#body-inner" in the highlighted page, and
-- scroll_into_view the place at which the browser has an element at the top of the window.
module _ (body_inner : Nodes → Nodes) (scroll_into_view : Nodes → ℕ) where
  abbrev restore_value : Option Text → Ready → Option Ready
  restore_value none r = some r
  restore_value (some search_value) r =
      let again = type_value search_value r.box in
      if is_empty search_value then some r else elim again [
        | none ↦ none
        | some box ↦ some record {
          box = box;
          searchbox_hidden = false;
          scroll_y = elim (first_containing search_value (body_inner box.page.content)) [
            | none ↦ r.scroll_y
            | some found ↦ below_bar (scroll_into_view found)
          ];
        }
      ]

  unfoldable pub restore_search : Ready → Option Ready
  unfolding type_value first_containing
  restore_search r = restore_value (lookup r.box.page.session (text "search-value")) r
