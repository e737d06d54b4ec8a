-- ===== src/Site/Highlight/Content.antt =====
-- The text of a page, which the marks leave as it is.
use athens.Prelude.{
  ℕ, zero, suc, ◌≡◌, refl, some, List, [], ◌∷◌, ◌++◌, append_assoc, append-nil, nat_eq, text_eq,
  Text, text, is_empty, length, arith, Option-cases, Bool-cases, inl, inr,
}
use athens.Site.Highlight.{
  Node, text_node, element, Nodes, end, child, word_at, match_at, find, mark_text, skips,
  highlight_node, highlight_nodes, non_empty, highlight,
}

unfoldable mutual
  pub node_text : Node → Text
  node_text (text_node s) = s
  node_text (element t c children) = nodes_text children

  pub nodes_text : Nodes → Text
  nodes_text end = []
  nodes_text (child n ns) = node_text n ++ nodes_text ns

word_at-append : (word s hit rest : Text) → word_at word s ≡ some (hit, rest) → s ≡ hit ++ rest
unfolding word_at
word_at-append [] s hit rest h = ground arith
word_at-append (w ∷ word) [] hit rest h = absurd (cc)
word_at-append (w ∷ word) (c ∷ s) hit rest h = elim (Option-cases (word_at word s)) [
  | inl miss ↦ absurd (ground (arith))
  | inr ((a, b), found) ↦ ground (arith, word_at-append word s a b found)
]

match_at-append :
    (words : List Text) (s hit rest : Text) → match_at words s ≡ some (hit, rest) → s ≡ hit ++ rest
unfolding match_at
match_at-append [] s hit rest h = absurd (cc)
match_at-append (w ∷ words) s hit rest h = elim (Option-cases (word_at w s)) [
  | inl miss ↦ match_at-append words s hit rest (rw (miss, match_at) at h)
  | inr ((a, b), found) ↦ ground (arith, word_at-append w s hit rest)
]

pub find-append :
    (words : List Text) (s before hit rest : Text)
    → find words s ≡ some (before, hit, rest)
    → s ≡ before ++ (hit ++ rest)
unfolding find
find-append words [] before hit rest h = elim (Option-cases (match_at words [])) [
  | inl miss ↦ absurd (ground (arith))
  | inr ((a, b), found) ↦ ground (arith, match_at-append words [] a b found)
]
find-append words (c ∷ s) before hit rest h = elim (Option-cases (match_at words (c ∷ s))) [
  | inr ((a, b), found) ↦ ground (arith, match_at-append words (c ∷ s) a b found)
  | inl miss ↦ elim (Option-cases (find words s)) [
    | inl none_here ↦ absurd (ground (arith))
    | inr ((a, b, d), found) ↦ ground (arith, find-append words s a b d found)
  ]
]

nodes_text-mark_text :
    (fuel : ℕ) (words : List Text) (tag class s : Text) (after : Nodes)
    → nodes_text (mark_text fuel words tag class s after) ≡ s ++ nodes_text after
unfolding mark_text nodes_text
nodes_text-mark_text zero words tag class s after = refl
nodes_text-mark_text (suc fuel) words tag class s after = elim (Option-cases (find words s)) [
  | inl miss ↦ ground (arith)
  | inr ((before, hit, rest), found) ↦ rw (
    mark_text,
    found,
    nodes_text-mark_text fuel words tag class rest after,
    find-append words s before hit rest found,
    append-nil,
    append_assoc,
    append_assoc,
  )
]

mutual
  unfolding highlight_nodes nodes_text

  nodes_text-highlight_node :
      (words : List Text) (tag class : Text) (n : Node) (after : Nodes)
      → nodes_text (highlight_node words tag class n after) ≡ node_text n ++ nodes_text after
  nodes_text-highlight_node words tag class (text_node s) after =
      nodes_text-mark_text (suc (length s)) words tag class s after
  nodes_text-highlight_node words tag class (element t c children) after =
      let same_text = nodes_text-highlight_nodes words tag class children in
      elim (Bool-cases (skips tag class t c)) [
        | inl skipped ↦ rw (skipped)
        | inr marked ↦ rw (marked, same_text)
      ]

  nodes_text-highlight_nodes :
      (words : List Text) (tag class : Text) (ns : Nodes)
      → nodes_text (highlight_nodes words tag class ns) ≡ nodes_text ns
  nodes_text-highlight_nodes words tag class end = refl
  nodes_text-highlight_nodes words tag class (child n ns) =
      let same_text = nodes_text-highlight_nodes words tag class ns in
      rw (
        nodes_text-highlight_node words tag class n (highlight_nodes words tag class ns),
        same_text,
      )

-- Highlighting keeps the text of the page, for all words, tag names and pages.
pub nodes_text-highlight :
    (words : List Text) (tag : Text) (page : Nodes)
    → nodes_text (highlight words tag page) ≡ nodes_text page
unfolding highlight
nodes_text-highlight words tag page = elim (Bool-cases (is_empty (non_empty words))) [
  | inl no_words ↦ rw (no_words)
  | inr some_words ↦
      rw (some_words, nodes_text-highlight_nodes (non_empty words) tag (text "highlight") page)
]
