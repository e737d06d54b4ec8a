-- ===== src/Site/Unhighlight.antt =====
-- learn.js: jQuery.fn.unhighlight, which removes the marks of a page, and the handler of the search
-- input that removes the old marks and sets the new ones.
pub mod Content
pub mod Marks
use athens.Prelude.{
  Bool, true, false, ◌&&◌, ◌||◌, Option, none, some, List, [], ◌∷◌, ◌++◌, ◌==◌, text_eq,
  if◌then◌else◌, Text, text, contains, split, insert, delete, is_empty,
}
use athens.Site.Highlight.{Node, text_node, element, Nodes, end, child, highlight}

-- The selector "mark.highlight": the tag name, and one of the classes.
unfoldable pub is_marked : Text → Text → Text → Text → Bool
is_marked tag class t c = t == tag && contains (split (text " ") c) class

unfoldable pub has_mark : Text → Text → Nodes → Bool
unfolding is_marked
has_mark tag class end = false
has_mark tag class (child (text_node s) ns) = has_mark tag class ns
has_mark tag class (child (element t c k) ns) = is_marked tag class t c || has_mark tag class ns

-- `normalize` of the DOM: no empty texts, and no text beside a text.
unfoldable pub glue : Text → Nodes → Nodes
glue [] ns = ns
glue (x ∷ s) end = child (text_node (x ∷ s)) end
glue (x ∷ s) (child (text_node t) ns) = child (text_node (x ∷ (s ++ t))) ns
glue (x ∷ s) (child (element t c k) ns) = child (text_node (x ∷ s)) (child (element t c k) ns)

unfoldable pub normalize : Nodes → Nodes
unfolding glue
normalize end = end
normalize (child (text_node s) ns) = glue s (normalize ns)
normalize (child (element t c k) ns) = child (element t c (normalize k)) (normalize ns)

-- A mark gives way to its first child, `replaceChild(this.firstChild, this)`, which throws where
-- there is none. Other elements are kept.
abbrev pub place : Bool → Text → Text → Nodes → Nodes → Option Nodes
place false t c kids rest = some (child (element t c kids) rest)
place true t c end rest = none
place true t c (child n ns) rest = some (child n rest)

-- The parent of a replaced mark is normalized.
abbrev pub tidy : Bool → Nodes → Nodes
tidy changed kids = if changed then normalize kids else kids

unfoldable pub unmark : Text → Text → Nodes → Option Nodes
unfolding is_marked has_mark normalize
unmark tag class end = some end
unmark tag class (child (text_node s) ns) = elim (unmark tag class ns) [
  | none ↦ none
  | some rest ↦ some (child (text_node s) rest)
]
unmark tag class (child (element t c k) ns) = elim (unmark tag class k) [
  | none ↦ none
  | some kids ↦ elim (unmark tag class ns) [
    | none ↦ none
    | some rest ↦
        place (is_marked tag class t c) t c
          (if is_marked tag class t c then kids else tidy (has_mark tag class k) kids) rest
  ]
]

-- `unhighlight({ element: … })` on the children of the selected element; none where it throws.
unfoldable pub unhighlight : Text → Nodes → Option Nodes
unfolding unmark has_mark normalize
unhighlight tag page = elim (unmark tag (text "highlight") page) [
  | none ↦ none
  | some kept ↦ some (tidy (has_mark tag (text "highlight") page) kept)
]

-- The page in a search: the content of ".highlightable" and the session storage.
pub record Searched : Type 0 where
  pub content : Nodes
  pub session : List (Text × Text)

-- The handler of the event "input" of "[data-search-input]".
unfoldable pub search_input : Text → Searched → Option Searched
unfolding unhighlight highlight
search_input value p = elim (unhighlight (text "MARK") p.content) [
  | none ↦ none
  | some plain ↦
      if is_empty value
      then some record { content = plain; session = delete p.session (text "search-value") }
      else some record {
        content = highlight (value ∷ []) (text "MARK") plain;
        session = insert p.session (text "search-value") value;
      }
]
