-- ===== src/Site/Unhighlight/Content.antt =====
-- The marks and the text of a page.
use athens.Prelude.{
  ◌≡◌, refl, ap, ◌∙◌, Bool, true, false, ◌&&◌, not, some, [], ◌∷◌, ◌++◌, append_assoc, append-nil,
  ◌==◌, text_eq, if◌then◌else◌, Text, text, Bool-cases, inl, inr,
}
use athens.Site.Highlight.{text_node, element, Nodes, end, child}
use athens.Site.Highlight.Content.{nodes_text}
use athens.Site.Unhighlight.{is_marked, has_mark, glue, normalize, tidy, unmark, unhighlight}

abbrev pub is_one_text : Nodes → Bool
is_one_text (child (text_node (x ∷ s)) end) = true
is_one_text ns = false

-- Every mark of the page holds one text and nothing else.
unfoldable pub marks_are_texts : Text → Text → Nodes → Bool
unfolding is_marked
marks_are_texts tag class end = true
marks_are_texts tag class (child (text_node s) ns) = marks_are_texts tag class ns
marks_are_texts tag class (child (element t c k) ns) =
    let inner = marks_are_texts tag class k in
    let outer = marks_are_texts tag class ns in
    (if is_marked tag class t c then c == class && is_one_text k else inner) && outer

unfoldable pub has_no_marks : Text → Text → Nodes → Bool
unfolding is_marked
has_no_marks tag class end = true
has_no_marks tag class (child (text_node s) ns) = has_no_marks tag class ns
has_no_marks tag class (child (element t c k) ns) =
    not (is_marked tag class t c) && (has_no_marks tag class k && has_no_marks tag class ns)

nodes_text-glue : (s : Text) (ns : Nodes) → nodes_text (glue s ns) ≡ s ++ nodes_text ns
unfolding glue nodes_text
nodes_text-glue [] ns = refl
nodes_text-glue (x ∷ s) end = refl
nodes_text-glue (x ∷ s) (child (text_node t) ns) = rw append_assoc
nodes_text-glue (x ∷ s) (child (element t c k) ns) = refl

nodes_text-normalize : (ns : Nodes) → nodes_text (normalize ns) ≡ nodes_text ns
unfolding normalize nodes_text
nodes_text-normalize end = refl
nodes_text-normalize (child (text_node s) ns) =
    nodes_text-glue s (normalize ns) ∙ ap (λ t. s ++ t) (nodes_text-normalize ns)
nodes_text-normalize (child (element t c k) ns) =
    rw (nodes_text-normalize k, nodes_text-normalize ns)

nodes_text-tidy : (changed : Bool) (ns : Nodes) → nodes_text (tidy changed ns) ≡ nodes_text ns
nodes_text-tidy true ns = nodes_text-normalize ns
nodes_text-tidy false ns = refl

glue-marks :
    (tag class s : Text) (ns : Nodes)
    → has_no_marks tag class (glue s ns) ≡ has_no_marks tag class ns
unfolding glue has_no_marks
glue-marks tag class [] ns = refl
glue-marks tag class (c ∷ s) end = refl
glue-marks tag class (c ∷ s) (child (text_node t) ns) = refl
glue-marks tag class (c ∷ s) (child (element t d kids) ns) = refl

normalize-marks :
    (tag class : Text) (ns : Nodes)
    → has_no_marks tag class (normalize ns) ≡ has_no_marks tag class ns
unfolding normalize has_no_marks
normalize-marks tag class end = refl
normalize-marks tag class (child (text_node s) ns) =
    glue-marks tag class s (normalize ns) ∙ normalize-marks tag class ns
normalize-marks tag class (child (element t c kids) ns) =
    rw (normalize-marks tag class kids, normalize-marks tag class ns)

tidy-marks :
    (tag class : Text) (changed : Bool) (ns : Nodes)
    → has_no_marks tag class (tidy changed ns) ≡ has_no_marks tag class ns
tidy-marks tag class true ns = normalize-marks tag class ns
tidy-marks tag class false ns = refl

pub and-both : (a b : Bool) → (a && b) ≡ true → (a ≡ true) × (b ≡ true)
and-both true true h = (refl, refl)
and-both true false h = absurd (cc)
and-both false b h = absurd (cc)

pub is_one_text-shape :
    (k : Nodes) → is_one_text k ≡ true → (s : Text) × (k ≡ child (text_node s) end)
is_one_text-shape (child (text_node (x ∷ s)) end) h = (x ∷ s, refl)
is_one_text-shape end h = absurd (cc)
is_one_text-shape (child (text_node []) end) h = absurd (cc)
is_one_text-shape (child (text_node []) (child n ns)) h = absurd (cc)
is_one_text-shape (child (text_node (x ∷ s)) (child n ns)) h = absurd (cc)
is_one_text-shape (child (element u d j) others) h = absurd (cc)

pub unmark-text :
    (tag class : Text) (ns : Nodes)
    → marks_are_texts tag class ns ≡ true
    → (kept : Nodes) × (unmark tag class ns ≡ some kept)
      × (nodes_text kept ≡ nodes_text ns)
      × (has_no_marks tag class kept ≡ true)
unfolding unmark marks_are_texts nodes_text has_no_marks
unmark-text tag class end h = (end, refl, refl, refl)
unmark-text tag class (child (text_node s) ns) h =
    let (rest, done, same, clean) = unmark-text tag class ns h in
    (child (text_node s) rest, rw done, ap (λ t. s ++ t) same, clean)
unmark-text tag class (child (element t c k) ns) h =
    let (here, after) =
      and-both
        (if is_marked tag class t c
          then c == class && is_one_text k
          else marks_are_texts tag class k)
        (marks_are_texts tag class ns) h in
    let (rest, done, same, clean) = unmark-text tag class ns after in
    elim (Bool-cases (is_marked tag class t c)) [
      | inl marked ↦
          let (s, shape) =
            is_one_text-shape k (and-both (c == class) (is_one_text k) (rw marked at here)).1 in
          (child (text_node s) rest, rw (shape, done, marked), rw (shape, same, append-nil), clean)
      | inr other ↦
          let (kids, done_k, same_k, clean_k) = unmark-text tag class k (rw other at here) in
          (
            child (element t c (tidy (has_mark tag class k) kids)) rest,
            rw (done_k, done, other),
            rw (nodes_text-tidy (has_mark tag class k) kids, same_k, same),
            rw (tidy-marks tag class (has_mark tag class k) kids, clean_k, clean, other) refl,
          )
    ]

-- A page without marks has none that holds something else than a text.
pub marks_are_texts-unmarked :
    (tag class : Text) (ns : Nodes)
    → has_no_marks tag class ns ≡ true
    → marks_are_texts tag class ns ≡ true
unfolding marks_are_texts has_no_marks
marks_are_texts-unmarked tag class end h = refl
marks_are_texts-unmarked tag class (child (text_node s) ns) h =
    marks_are_texts-unmarked tag class ns h
marks_are_texts-unmarked tag class (child (element t c k) ns) h =
    let (plain, more) =
      and-both (not (is_marked tag class t c))
        (has_no_marks tag class k && has_no_marks tag class ns) h in
    let (inner, outer) = and-both (has_no_marks tag class k) (has_no_marks tag class ns) more in
    elim (Bool-cases (is_marked tag class t c)) [
      | inl marked ↦ absurd (cc)
      | inr other ↦
          rw
            (
              other,
              marks_are_texts-unmarked tag class k inner,
              marks_are_texts-unmarked tag class ns outer,
            )
            refl
    ]

-- Removing the marks of a page on which every mark holds one text and nothing else does not throw,
-- keeps the text of the page, and leaves no mark.
pub unhighlight-text :
    (tag : Text) (page : Nodes)
    → marks_are_texts tag (text "highlight") page ≡ true
    → (kept : Nodes) × (unhighlight tag page ≡ some kept)
      × (nodes_text kept ≡ nodes_text page)
      × (has_no_marks tag (text "highlight") kept ≡ true)
unfolding unhighlight
unhighlight-text tag page h =
    let (kept, done, same, clean) = unmark-text tag (text "highlight") page h in
    let changed = has_mark tag (text "highlight") page in
    (
      tidy changed kept,
      rw (unhighlight, done),
      nodes_text-tidy changed kept ∙ same,
      tidy-marks tag (text "highlight") changed kept ∙ clean,
    )
