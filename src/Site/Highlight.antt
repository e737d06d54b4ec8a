-- ===== src/Site/Highlight.antt =====
-- learn.js: jQuery.highlight and jQuery.fn.highlight, which mark the searched words in a page. A page
-- is a tree of elements and texts. The program passes one element name and no other option, so the
-- search ignores case and finds parts of words.
pub mod Content
pub mod Fuel
use athens.Prelude.{
  ℕ, zero, suc, ◌+◌, ◌-◌, Bool, true, false, ◌&&◌, ◌||◌, not, Option, none, some, List, [], ◌∷◌,
  ◌++◌, ◌==◌, nat_eq, text_eq, if◌then◌else◌, Text, text, is_empty, leb, length,
}

mutual
  -- `element` has its tag name (upper case, as in the DOM), its class and its children.
  pub data Node : Type 0 where
    text_node : Text → Node
    element : Text → Text → Nodes → Node

  pub data Nodes : Type 0 where
    end : Nodes
    child : Node → Nodes → Nodes

-- toUpperCase on ASCII.
unfoldable pub upper : ℕ → ℕ
upper c = if leb b'a' c && leb c b'z' then c - 32 else c

-- The regular expression "(w1|w2|…)" with the flag i, where all special characters of the words are
-- escaped: the first word that stands at a place, in any case, as what it covers and what is left.
unfoldable pub word_at : Text → Text → Option (Text × Text)
unfolding upper
word_at [] s = some ([], s)
word_at (w ∷ word) [] = none
word_at (w ∷ word) (c ∷ s) = elim (word_at word s) [
  | none ↦ none
  | some (hit, rest) ↦ if upper w == upper c then some (c ∷ hit, rest) else none
]

unfoldable pub match_at : List Text → Text → Option (Text × Text)
unfolding word_at
match_at [] s = none
match_at (word ∷ words) s = elim (word_at word s) [ some m ↦ some m | none ↦ match_at words s ]

-- `node.data.match(re)`: the leftmost match, with the text before it.
unfoldable pub find : List Text → Text → Option (Text × Text × Text)
unfolding match_at
find words [] = elim (match_at words []) [ none ↦ none | some (hit, rest) ↦ some ([], hit, rest) ]
find words (c ∷ s) = elim (match_at words (c ∷ s)) [
  | some (hit, rest) ↦ some ([], hit, rest)
  | none ↦ elim (find words s) [
    | none ↦ none
    | some (before, hit, rest) ↦ some (c ∷ before, hit, rest)
  ]
]

-- The two calls of splitText and the new element put three nodes in the place of a text. The loop
-- over the children skips the new element and goes on with the rest of the text. The rest is shorter
-- than the text, so its length is enough fuel.
unfoldable pub mark_text : ℕ → List Text → Text → Text → Text → Nodes → Nodes
mark_text zero words tag class s after = child (text_node s) after
mark_text (suc fuel) words tag class s after = elim (find words s) [
  | none ↦ child (text_node s) after
  | some (before, hit, rest) ↦ child (text_node before) (
      child (element tag class (child (text_node hit) end))
        (mark_text fuel words tag class rest after))
]

-- `/(script|style)/i` on a tag name.
unfoldable pub is_code_tag : Text → Bool
unfolding find
is_code_tag tag = elim (find (text "script" ∷ text "style" ∷ []) tag) [
  | none ↦ false
  | some m ↦ true
]

unfoldable pub skips : Text → Text → Text → Text → Bool
unfolding is_code_tag
skips tag class t c = is_code_tag t || (t == tag && c == class)

-- `jQuery.highlight` over a list of children; tag is `nodeName.toUpperCase()`.
unfoldable mutual
  pub highlight_node : List Text → Text → Text → Node → Nodes → Nodes
  highlight_node words tag class (text_node s) after =
      mark_text (suc (length s)) words tag class s after
  highlight_node words tag class (element t c children) after =
      let marked = highlight_nodes words tag class children in
      child (element t c (if skips tag class t c then children else marked)) after

  pub highlight_nodes : List Text → Text → Text → Nodes → Nodes
  highlight_nodes words tag class end = end
  highlight_nodes words tag class (child n ns) =
      highlight_node words tag class n (highlight_nodes words tag class ns)

pub non_empty : List Text → List Text
non_empty [] = []
non_empty (w ∷ ws) = let rest = non_empty ws in if is_empty w then rest else w ∷ rest

-- `jQuery.fn.highlight(words, { element: … })` on the children of the selected element. A single
-- word is passed as a list of one.
unfoldable pub highlight : List Text → Text → Nodes → Nodes
unfolding non_empty highlight_nodes
highlight words tag page =
    if is_empty (non_empty words)
    then page
    else highlight_nodes (non_empty words) tag (text "highlight") page
