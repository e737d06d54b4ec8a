-- ===== src/Site/Headings/Diagrams.antt =====
-- The source of a diagram in the HTML of the page.
use athens.Prelude.{
  ◌≡◌, refl, ap, ◌∙◌, ℕ, false, [], ◌∷◌, ◌++◌, ◌==◌, nat_eq, nat_beq_iff, if◌then◌else◌, Text, text,
  strip_prefix, arith, Bool-cases, inl, inr,
}
use athens.Site.Headings.{replace_from, mermaid_div}

-- How a browser writes a character of a text in HTML, and the same with the ampersands left alone.
abbrev pub escape_markup : ℕ → Text
escape_markup c =
    if c == b'<'
    then text "&lt;"
    else (if c == b'>' then text "&gt;" else (if c == 160 then text "&nbsp;" else c ∷ []))

abbrev pub escape : ℕ → Text
escape c = if c == b'&' then text "&amp;" else escape_markup c

abbrev pub write : (ℕ → Text) → Text → Text
write f [] = []
write f (c ∷ s) = f c ++ write f s

replace_from-other :
    (c : ℕ) (rest : Text) → c == b'&' ≡ false → replace_from 0 (c ∷ rest) ≡ c ∷ replace_from 0 rest
unfolding replace_from strip_prefix
replace_from-other c rest other = ground arith

replace_from-escape :
    (c : ℕ) (rest : Text)
    → replace_from 0 (escape c ++ rest) ≡ escape_markup c ++ replace_from 0 rest
unfolding replace_from strip_prefix
replace_from-escape c rest = elim (Bool-cases (c == b'&')) [
  | inl amp ↦ rw ((nat_beq_iff c b'&').0 amp) refl
  | inr other ↦ elim (Bool-cases (c == b'<')) [
    | inl lt ↦ rw (other, lt) refl
    | inr not_lt ↦ elim (Bool-cases (c == b'>')) [
      | inl gt ↦ rw (other, not_lt, gt) refl
      | inr not_gt ↦ elim (Bool-cases (c == 160)) [
        | inl space ↦ rw (other, not_lt, not_gt, space) refl
        | inr plain ↦ rw (other, not_lt, not_gt, plain) (replace_from-other c rest other)
      ]
    ]
  ]
]

replace_from-write : (s : Text) → replace_from 0 (write escape s) ≡ write escape_markup s
unfolding replace_from
replace_from-write [] = refl
replace_from-write (c ∷ s) =
    replace_from-escape c (write escape s) ∙ ap (λ t. escape_markup c ++ t) (replace_from-write s)

-- For every text in a code element of a diagram, whose HTML is the text with its characters written
-- as the browser does: the element that takes its place has the text with its ampersands as they are;
-- the other characters stay written as they were.
mermaid_div-write :
    (s : Text)
    → mermaid_div (write escape s)
      ≡ text "<div class=\"mermaid\" align=\"center\">" ++ write escape_markup s ++ text "</div>"
unfolding mermaid_div
mermaid_div-write s = rw (replace_from-write s) refl
