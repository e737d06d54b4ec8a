-- ===== src/Site/Headings.antt =====
-- hugo-learn.js: the link buttons behind the headings, their label, and the diagrams, whose source the
-- page has in its HTML. encodeURI is a parameter.
pub mod Diagrams
pub mod Links
use athens.Prelude.{
  ℕ, zero, suc, Bool, true, false, ◌||◌, ◌&&◌, Option, none, some, List, [], ◌∷◌, ◌++◌, ◌==◌,
  nat_eq, text_eq, if◌then◌else◌, Text, text, strip_prefix,
}

-- An element among its siblings: the tag name, the id, and the link of its button, if it got one.
pub record Sibling : Type 0 where
  pub tag : Text
  pub id : Text
  pub anchor : Option Text

abbrev pub is_subheading : Text → Bool
is_subheading tag =
    tag == text "H2"
    || (tag == text "H3" || (tag == text "H4" || (tag == text "H5" || tag == text "H6")))

module _ (encode_uri : Text → Text) (origin pathname : Text) where
  abbrev pub link_of : Text → Text
  link_of id = encode_uri (origin ++ pathname) ++ text "#" ++ id

  -- The selector "h1~h2,h1~h3,h1~h4,h1~h5,h1~h6" on the children of an element: the headings that
  -- have an H1 before them. The Boolean says whether there was one.
  unfoldable pub append_links : Bool → List Sibling → List Sibling
  append_links behind_h1 [] = []
  append_links behind_h1 (s ∷ siblings) =
      record {
        tag = s.tag;
        id = s.id;
        anchor = if behind_h1 && is_subheading s.tag then some (link_of s.id) else s.anchor;
      }
      ∷ append_links (behind_h1 || s.tag == text "H1") siblings

-- The span that is appended, with the link for the clipboard.
unfoldable pub anchor_span : Text → Text
anchor_span link =
    text " <span class='anchor' data-clipboard-text='"
    ++ link
    ++ text "'>"
    ++ text "<i class='fas fa-link fa-lg'></i>"
    ++ text "</span>"

-- `html.replace(/&amp;/g, '&')`: the number counts the characters of a match that are still to be
-- passed over.
unfoldable pub replace_from : ℕ → Text → Text
unfolding strip_prefix
replace_from skipped [] = []
replace_from (suc skipped) (c ∷ s) = replace_from skipped s
replace_from zero (c ∷ s) = elim (strip_prefix (text "&amp;") (c ∷ s)) [
  | some rest ↦ b'&' ∷ replace_from 4 s
  | none ↦ c ∷ replace_from zero s
]

-- What a code element of class "language-mermaid" gives way to, by its HTML.
unfoldable pub mermaid_div : Text → Text
unfolding replace_from
mermaid_div html =
    text "<div class=\"mermaid\" align=\"center\">" ++ replace_from 0 html ++ text "</div>"

-- The button of a heading: the label, and whether it has the classes of the tooltip. ClipboardJS calls
-- the first handler after a copy, the browser the other when the mouse leaves.
pub record AnchorButton : Type 0 where
  pub aria_label : Option Text
  pub tooltipped : Bool

unfoldable pub anchor_success : AnchorButton → AnchorButton
anchor_success b = record {
  aria_label = some (text "Link copied to clipboard!");
  tooltipped = true;
}

unfoldable pub anchor_leave : AnchorButton → AnchorButton
anchor_leave b = record { aria_label = none; tooltipped = false }
