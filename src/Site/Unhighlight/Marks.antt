-- ===== src/Site/Unhighlight/Marks.antt =====
-- The marks that the scripts set and remove.
use athens.Prelude.{
  text_beq, text_beq_iff, ◌≡◌, refl, ℕ, suc, zero, Bool, true, false, ◌&&◌, List, [], ◌∷◌, ◌==◌,
  text_eq, if◌then◌else◌, Text, text, is_empty, length, contains, split, arith, Bool-cases,
  Option-cases, inl, inr,
}
use athens.Site.Highlight.{
  text_node, element, Nodes, end, child, find, mark_text, skips, highlight_nodes,
}
use athens.Site.Highlight.Fuel.{AreFilled, find-filled}
use athens.Site.Unhighlight.{is_marked}
use athens.Site.Unhighlight.Content.{is_one_text, marks_are_texts, and-both}

is_one_text-hit :
    (hit : Text) → is_empty hit ≡ false → is_one_text (child (text_node hit) end) ≡ true
is_one_text-hit [] h = absurd (cc)
is_one_text-hit (c ∷ hit) h = refl

both-and : (a b : Bool) → a ≡ true → b ≡ true → (a && b) ≡ true
both-and a b h k = rw (h, k) refl

same_refl : (t : Text) → (t == t) ≡ true
same_refl t = (text_beq_iff t t).1 refl

pub is_marked-new : (tag : Text) → is_marked tag (text "highlight") tag (text "highlight") ≡ true
unfolding is_marked text_beq contains split
is_marked-new tag = both-and (tag == tag) true (same_refl tag) refl

-- The result of `marks_are_texts` on one element.
abbrev is_sound : Text → Text → Text → Text → Nodes → Bool
is_sound tag class t c kids =
    if is_marked tag class t c
    then c == class && is_one_text kids
    else marks_are_texts tag class kids

skips-marked :
    (tag class t c : Text)
    → is_marked tag class t c ≡ true
    → c == class ≡ true
    → skips tag class t c ≡ true
unfolding is_marked skips
skips-marked tag class t c marked named =
    let tagged = (and-both (t == tag) (contains (split (text " ") c) class) marked).0 in
    ground (arith, tagged, named)

module _ (words : List Text) (filled : AreFilled words) (tag class : Text)
    (new : is_marked tag class tag class ≡ true) where
  mark_text-marks :
      (fuel : ℕ) (s : Text) (after : Nodes)
      → marks_are_texts tag class after ≡ true
      → marks_are_texts tag class (mark_text fuel words tag class s after) ≡ true
  unfolding mark_text marks_are_texts
  mark_text-marks zero s after h = h
  mark_text-marks (suc fuel) s after h = elim (Option-cases (find words s)) [
    | inl miss ↦ rw (mark_text, miss) h
    | inr ((before, hit, rest), found) ↦
        rw
          (
            mark_text,
            found,
            new,
            is_one_text-hit hit (find-filled words s before hit rest filled found),
            same_refl class,
          )
          (mark_text-marks fuel rest after h)
  ]

  is_sound-element :
      (t c : Text) (kids : Nodes)
      → (marks_are_texts tag class kids ≡ true
          → marks_are_texts tag class (highlight_nodes words tag class kids) ≡ true)
      → is_sound tag class t c kids ≡ true
      → is_sound tag class t c
          (if skips tag class t c then kids else highlight_nodes words tag class kids)
        ≡ true
  is_sound-element t c kids inner h = elim (Bool-cases (is_marked tag class t c)) [
    | inl marked ↦
        let (named, one) = and-both (c == class) (is_one_text kids) (rw marked at h) in
        rw (skips-marked tag class t c marked named) h
    | inr other ↦ elim (Bool-cases (skips tag class t c)) [
      | inl skipped ↦ rw skipped h
      | inr entered ↦ rw (entered, other) (inner (rw other at h))
    ]
  ]

  pub highlight_nodes-marks :
      (ns : Nodes)
      → marks_are_texts tag class ns ≡ true
      → marks_are_texts tag class (highlight_nodes words tag class ns) ≡ true
  unfolding highlight_nodes marks_are_texts
  highlight_nodes-marks end h = refl
  highlight_nodes-marks (child (text_node s) ns) h =
      mark_text-marks (suc (length s)) s (highlight_nodes words tag class ns)
        (highlight_nodes-marks ns h)
  highlight_nodes-marks (child (element t c kids) ns) h =
      let (here, after) = and-both (is_sound tag class t c kids) (marks_are_texts tag class ns) h in
      both-and
        (is_sound tag class t c
          (if skips tag class t c then kids else highlight_nodes words tag class kids))
        (marks_are_texts tag class (highlight_nodes words tag class ns))
        (is_sound-element t c kids (highlight_nodes-marks kids) here)
        (highlight_nodes-marks ns after)
