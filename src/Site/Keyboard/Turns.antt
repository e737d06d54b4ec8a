-- ===== src/Site/Keyboard/Turns.antt =====
-- Where a page is after any keys.
use athens.Prelude.{
  ◌≡◌, refl, ap, ◌∙◌, sym, ◌&&◌, List, [], ◌∷◌, Option, none, some, ◌==◌, nat_eq, if◌then◌else◌,
  Text, arith,
}
use athens.Site.Keyboard.{
  Link, address, click_link, click_prev, click_next, document_keydown, Key, keydown, keydowns,
}

abbrev pub or_here : Option Text → Text → Text
or_here none location = location
or_here (some there) location = there

abbrev later : Option Text → Option Text → Option Text
later none first = first
later (some last) first = some last

-- The address of the last link with the classes "nav" and "nav-prev", and with "nav" and "nav-next".
abbrev pub last_prev : List Link → Option Text
last_prev [] = none
last_prev (link ∷ links) =
    later (last_prev links) (if link.nav && link.nav_prev then some (address link) else none)

abbrev pub last_next : List Link → Option Text
last_next [] = none
last_next (link ∷ links) =
    later (last_next links) (if link.nav && link.nav_next then some (address link) else none)

-- Where one key leads to: nowhere in a field.
abbrev pub turn : List Link → Key → Option Text
turn links key =
    if key.in_field
    then none
    else (if key.which == 37
        then last_prev links
        else (if key.which == 39 then last_next links else none))

abbrev pub last_turn : List Link → List Key → Option Text
last_turn links [] = none
last_turn links (key ∷ keys) = later (last_turn links keys) (turn links key)

or_here-later :
    (last first : Option Text) (location : Text)
    → or_here (later last first) location ≡ or_here last (or_here first location)
or_here-later none first location = refl
or_here-later (some there) first location = refl

click_prev-last :
    (links : List Link) (location : Text)
    → click_prev links location ≡ or_here (last_prev links) location
unfolding click_prev click_link
click_prev-last [] location = refl
click_prev-last (link ∷ links) location =
    click_prev-last links (if link.nav && link.nav_prev then click_link link location else location)
    ∙ ap (λ l. or_here (last_prev links) l) (ground arith)
    ∙ sym (
        or_here-later (last_prev links)
          (if link.nav && link.nav_prev then some (address link) else none) location)

click_next-last :
    (links : List Link) (location : Text)
    → click_next links location ≡ or_here (last_next links) location
unfolding click_next click_link
click_next-last [] location = refl
click_next-last (link ∷ links) location =
    click_next-last links (if link.nav && link.nav_next then click_link link location else location)
    ∙ ap (λ l. or_here (last_next links) l) (ground arith)
    ∙ sym (
        or_here-later (last_next links)
          (if link.nav && link.nav_next then some (address link) else none) location)

keydown-turn :
    (links : List Link) (key : Key) (location : Text)
    → keydown links key location ≡ or_here (turn links key) location
unfolding keydown document_keydown
keydown-turn links key location =
    ground (arith, click_prev-last links location, click_next-last links location)

-- For any links of a page and any keys one after the other: the location is the one of the last key
-- that leads somewhere, and else the one before the keys. The left arrow leads to the last link with
-- the classes "nav" and "nav-prev", the right arrow to the last one with "nav" and "nav-next"; no
-- other key, no key in a field and no arrow without such a link leads anywhere.
keydowns-last_turn :
    (links : List Link) (keys : List Key) (location : Text)
    → keydowns links keys location ≡ or_here (last_turn links keys) location
unfolding keydowns
keydowns-last_turn links [] location = refl
keydowns-last_turn links (key ∷ keys) location =
    keydowns-last_turn links keys (keydown links key location)
    ∙ ap (λ l. or_here (last_turn links keys) l) (keydown-turn links key location)
    ∙ sym (or_here-later (last_turn links keys) (turn links key) location)
