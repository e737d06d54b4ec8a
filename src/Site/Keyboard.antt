-- ===== src/Site/Keyboard.antt =====
-- learn.js: the arrow keys, which turn to the page before and to the next one, and the fields, which
-- keep the arrow keys for themselves.
pub mod Turns
use athens.Prelude.{
  ℕ, Bool, ◌&&◌, ◌||◌, List, [], ◌∷◌, Option, none, some, ◌==◌, nat_eq, if◌then◌else◌, Text, text,
}

-- A link: its classes "nav", "nav-prev" and "nav-next", and its attribute "href".
pub record Link : Type 0 where
  pub nav : Bool
  pub nav_prev : Bool
  pub nav_next : Bool
  pub href : Option Text

-- An attribute that is missing is undefined, and is written to the location as a text.
abbrev address : Link → Text
address link = elim link.href [ none ↦ text "undefined" | some href ↦ href ]

-- The handlers of a click on a link, which are those of `.nav-prev` and of `.nav-next`; the state is
-- the location.
unfoldable pub click_link : Link → Text → Text
click_link link location = if link.nav_prev || link.nav_next then address link else location

-- `jQuery('.nav.nav-prev').click()` and `jQuery('.nav.nav-next').click()`
unfoldable pub click_prev : List Link → Text → Text
unfolding click_link
click_prev [] location = location
click_prev (link ∷ links) location =
    click_prev links (if link.nav && link.nav_prev then click_link link location else location)

unfoldable pub click_next : List Link → Text → Text
unfolding click_link
click_next [] location = location
click_next (link ∷ links) location =
    click_next links (if link.nav && link.nav_next then click_link link location else location)

-- The handler of the document.
unfoldable pub document_keydown : List Link → ℕ → Text → Text
unfolding click_prev click_next
document_keydown links which location =
    let turned = if which == 37 then click_prev links location else location in
    if which == 39 then click_next links turned else turned

-- Whether the handler of the fields stops the event.
abbrev pub stops : ℕ → Bool
stops which = which == 37 || which == 39

-- A key goes down in an input or a textarea, or elsewhere.
pub record Key : Type 0 where
  pub which : ℕ
  pub in_field : Bool

unfoldable pub keydown : List Link → Key → Text → Text
unfolding document_keydown
keydown links key location =
    if key.in_field && stops key.which then location else document_keydown links key.which location

unfoldable pub keydowns : List Link → List Key → Text → Text
unfolding keydown
keydowns links [] location = location
keydowns links (key ∷ keys) location = keydowns links keys (keydown links key location)
