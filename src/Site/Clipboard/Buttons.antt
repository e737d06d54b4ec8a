-- ===== src/Site/Clipboard/Buttons.antt =====
-- learn.js: the buttons behind the code elements of a page, and the handlers of the clipboard, of the
-- copy event of the document and of the mouse. ClipboardJS, which calls its handlers, and the browser
-- are the order of the events.
pub mod Labels
use athens.Prelude.{
  ℕ, suc, zero, Bool, true, false, List, [], ◌∷◌, ◌++◌, Option, none, some, ◌==◌, text_eq,
  if◌then◌else◌, Text, text, leb, length, contains,
}
use athens.Site.Links.Anchors.{fallback_message}

-- A code element with its button, if it has one: whether its parent is a PRE, the label of the
-- button, and the classes that it was given.
pub record Button : Type 0 where
  pub in_pre : Bool
  pub aria_label : Option Text
  pub tooltipped : List Text

pub record Code : Type 0 where
  pub code : Text
  pub pre : Bool

-- The loop over the code elements: the buttons, and whether a clipboard was made, as `clipInit`
-- says. The first long code makes it; the list counts the clipboards.
pub record Buttons : Type 0 where
  pub clip_init : Bool
  pub clipboards : ℕ
  pub buttons : List (Option Button)

abbrev pub new_button : Bool → Button
new_button pre = record { in_pre = pre; aria_label = none; tooltipped = [] }

abbrev pub add_button : Code → Buttons → Buttons
add_button c b =
    if leb 6 (length c.code)
    then record {
      clip_init = true;
      clipboards = if b.clip_init then b.clipboards else suc b.clipboards;
      buttons = b.buttons ++ some (new_button c.pre) ∷ [];
    }
    else record {
      clip_init = b.clip_init;
      clipboards = b.clipboards;
      buttons = b.buttons ++ none ∷ [];
    }

unfoldable pub add_buttons : List Code → Buttons → Buttons
add_buttons [] b = b
add_buttons (c ∷ codes) b = add_buttons codes (add_button c b)

abbrev pub no_buttons : Buttons
no_buttons = record { clip_init = false; clipboards = 0; buttons = [] }

-- addClass leaves a class that is there.
abbrev pub add_class : List Text → Text → List Text
add_class classes class = if contains classes class then classes else classes ++ class ∷ []

abbrev pub direction : Bool → Text
direction pre = if pre then text "tooltipped-w" else text "tooltipped-s"

unfoldable pub tell : Text → Button → Button
unfolding contains
tell label b = record {
  in_pre = b.in_pre;
  aria_label = some label;
  tooltipped = add_class (add_class b.tooltipped (text "tooltipped")) (direction b.in_pre);
}

abbrev pub remove_class : Text → List Text → List Text
remove_class class [] = []
remove_class class (c ∷ classes) =
    let rest = remove_class class classes in if c == class then rest else c ∷ rest

-- The handler of "mouseleave".
unfoldable pub mouse_leave : Button → Button
mouse_leave b = record {
  in_pre = b.in_pre;
  aria_label = none;
  tooltipped =
      remove_class (text "tooltipped-w")
        (remove_class (text "tooltipped-s") (remove_class (text "tooltipped") b.tooltipped));
}

abbrev pub at_button : (Button → Button) → ℕ → List (Option Button) → List (Option Button)
at_button f i [] = []
at_button f zero (none ∷ bs) = none ∷ bs
at_button f zero (some b ∷ bs) = some (f b) ∷ bs
at_button f (suc i) (b ∷ bs) = b ∷ at_button f i bs

-- The handlers of `$(document).one('copy', …)` that wait, by their buttons.
pub record Shown : Type 0 where
  pub all : List (Option Button)
  pub pending : List ℕ

pub data Event : Type 0 where
  success : ℕ → Event
  error : ℕ → Text → Event
  copy : Event
  leave : ℕ → Event

abbrev pub copied : Text
copied = text "Copied to clipboard!"

unfoldable pub tell_all : List ℕ → List (Option Button) → List (Option Button)
unfolding tell
tell_all [] bs = bs
tell_all (i ∷ is) bs = tell_all is (at_button (tell copied) i bs)

unfoldable pub happen : Text → Event → Shown → Shown
unfolding tell tell_all mouse_leave fallback_message
happen user_agent (success i) s = record {
  all = at_button (tell copied) i s.all;
  pending = s.pending;
}
happen user_agent (error i action) s = record {
  all = at_button (tell (fallback_message user_agent action)) i s.all;
  pending = s.pending ++ i ∷ [];
}
happen user_agent copy s = record { all = tell_all s.pending s.all; pending = [] }
happen user_agent (leave i) s = record { all = at_button mouse_leave i s.all; pending = s.pending }

unfoldable pub happen_all : Text → List Event → Shown → Shown
unfolding happen
happen_all user_agent [] s = s
happen_all user_agent (e ∷ es) s = happen_all user_agent es (happen user_agent e s)
