-- ===== src/Site/Layout.antt =====
-- learn.js: getScrollBarWidth, setMenuHeight and the icons of the categories. What the browser lays
-- out is a parameter: the widths of an element with a style.
pub mod Measures
use athens.Prelude.{
  ℕ, ◌+◌, ◌-◌, Bool, not, List, [], ◌∷◌, ◌++◌, ◌==◌, nat_eq, if◌then◌else◌, Text, text, length,
}

-- The element `inner` has the width of `outer` and is higher than it.
pub record Style : Type 0 where
  pub position : Text
  pub top : Text
  pub left : Text
  pub visibility : Text
  pub width : Text
  pub height : Text
  pub overflow : Text

abbrev pub style_of : Text → Style
style_of overflow = record {
  position = text "absolute";
  top = text "0px";
  left = text "0px";
  visibility = text "hidden";
  width = text "200px";
  height = text "150px";
  overflow = overflow;
}

-- A body with some children; those of the page are nothing that the function reads.
pub data BodyChild : Type 0 where
  page_child : ℕ → BodyChild
  measuring : Style → BodyChild

abbrev is_measuring : BodyChild → Bool
is_measuring (page_child id) = Bool.false
is_measuring (measuring o) = Bool.true

-- removeChild of the one element that was appended.
unfoldable pub remove_outer : List BodyChild → List BodyChild
remove_outer [] = []
remove_outer (page_child id ∷ children) = page_child id ∷ remove_outer children
remove_outer (measuring o ∷ children) = remove_outer children

-- `offsetWidth` of inner and `clientWidth` of outer, for the style of outer.
module _ (offset_width client_width : Style → ℕ) where
  -- The width, and the children of the body after it. The first width is not less than the second.
  unfoldable pub scroll_bar_width : List BodyChild → ℕ × List BodyChild
  unfolding remove_outer
  scroll_bar_width body =
      let w1 = offset_width (style_of (text "hidden")) in
      let w2 = offset_width (style_of (text "scroll")) in
      let inside = if w1 == w2 then client_width (style_of (text "scroll")) else w2 in
      (w1 - inside, remove_outer (body ++ measuring (style_of (text "scroll")) ∷ []))

-- The height that setMenuHeight sets; jQuery sets no negative height.
unfoldable pub menu_height : ℕ → ℕ → ℕ
menu_height sidebar_height header_height = sidebar_height - header_height - 40

-- The icon of a category with its classes "fa-angle-down" and "fa-angle-right", and whether the list
-- of the category is shown.
pub record Category : Type 0 where
  pub angle_down : Bool
  pub angle_right : Bool
  pub list_shown : Bool

unfoldable pub toggle_category : Category → Category
toggle_category c = record {
  angle_down = not c.angle_down;
  angle_right = not c.angle_right;
  list_shown = not c.list_shown;
}
