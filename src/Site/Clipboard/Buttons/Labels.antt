-- ===== src/Site/Clipboard/Buttons/Labels.antt =====
-- What the buttons show after any events, and how many clipboards a page makes.
use athens.Prelude.{
  ◌≡◌, refl, ◌⊎◌, inl, inr, ℕ, suc, zero, Bool, true, false, List, [], ◌∷◌, Option, none, some,
  text_eq, text_beq, if◌then◌else◌, Text, text, leb, length, contains, arith, Bool-cases, All,
  All-append, ◌||◌,
}
use athens.Site.Clipboard.Buttons.{
  new_button, add_class, remove_class, Button, Code, Buttons, add_button, add_buttons, no_buttons,
  tell, mouse_leave, at_button, Shown, Event, success, error, copy, leave, tell_all, happen,
  happen_all, direction, copied,
}
use athens.Site.Links.Anchors.{fallback_message}

-- A button without a label has no classes, and one with a label has the two that show it.
abbrev pub IsShown : Option Button → Type 0
IsShown none = Unit
IsShown (some b) =
    ((b.aria_label ≡ none) × (b.tooltipped ≡ []))
    ⊎ ((label : Text) × (b.aria_label ≡ some label)
        × (b.tooltipped ≡ text "tooltipped" ∷ direction b.in_pre ∷ []))

classes_added :
    (pre : Bool)
    → add_class (add_class [] (text "tooltipped")) (direction pre)
      ≡ text "tooltipped" ∷ direction pre ∷ []
unfolding contains text_beq
classes_added true = refl
classes_added false = refl

classes_kept :
    (pre : Bool)
    → add_class
        (add_class (text "tooltipped" ∷ direction pre ∷ []) (text "tooltipped"))
        (direction pre)
      ≡ text "tooltipped" ∷ direction pre ∷ []
unfolding contains text_beq
classes_kept true = refl
classes_kept false = refl

classes_removed :
    (pre : Bool)
    → remove_class (text "tooltipped-w") (
        remove_class
          (text "tooltipped-s")
          (remove_class (text "tooltipped") (text "tooltipped" ∷ direction pre ∷ [])))
      ≡ []
unfolding text_beq
classes_removed true = refl
classes_removed false = refl

tell-IsShown : (label : Text) (b : Button) → IsShown (some b) → IsShown (some (tell label b))
unfolding tell
tell-IsShown label b (inl (h, k)) = inr (label, refl, rw k (classes_added b.in_pre))
tell-IsShown label b (inr (old, h, k)) = inr (label, refl, rw k (classes_kept b.in_pre))

mouse_leave-IsShown : (b : Button) → IsShown (some b) → IsShown (some (mouse_leave b))
unfolding mouse_leave
mouse_leave-IsShown b (inl (h, k)) = inl (refl, rw k refl)
mouse_leave-IsShown b (inr (old, h, k)) = inl (refl, rw k (classes_removed b.in_pre))

module _ (f : Button → Button)
    (keeps : (b : Button) → IsShown (some b) → IsShown (some (f b))) where
  at_button-All :
      (i : ℕ) (bs : List (Option Button)) → All IsShown bs → All IsShown (at_button f i bs)
  at_button-All i [] h = tt
  at_button-All zero (none ∷ bs) h = h
  at_button-All zero (some b ∷ bs) (shown, h) = (keeps b shown, h)
  at_button-All (suc i) (b ∷ bs) (shown, h) = (shown, at_button-All i bs h)

tell_all-All :
    (is : List ℕ) (bs : List (Option Button)) → All IsShown bs → All IsShown (tell_all is bs)
unfolding tell_all
tell_all-All [] bs h = h
tell_all-All (i ∷ is) bs h =
    tell_all-All is (at_button (tell copied) i bs)
      (at_button-All (tell copied) (tell-IsShown copied) i bs h)

happen-All :
    (user_agent : Text) (e : Event) (s : Shown)
    → All IsShown s.all
    → All IsShown (happen user_agent e s).all
unfolding happen
happen-All user_agent (success i) s h = at_button-All (tell copied) (tell-IsShown copied) i s.all h
happen-All user_agent (error i action) s h =
    let label = fallback_message user_agent action in
    at_button-All (tell label) (tell-IsShown label) i s.all h
happen-All user_agent copy s h = tell_all-All s.pending s.all h
happen-All user_agent (leave i) s h = at_button-All mouse_leave mouse_leave-IsShown i s.all h

happen_all-All :
    (user_agent : Text) (es : List Event) (s : Shown)
    → All IsShown s.all
    → All IsShown (happen_all user_agent es s).all
unfolding happen_all
happen_all-All user_agent [] s h = h
happen_all-All user_agent (e ∷ es) s h =
    happen_all-All user_agent es (happen user_agent e s) (happen-All user_agent e s h)

-- Whether some code is longer than 5 characters.
abbrev pub is_any_long : List Code → Bool
is_any_long [] = false
is_any_long (c ∷ codes) = leb 6 (length c.code) || is_any_long codes

add_buttons-clipboards :
    (codes : List Code) (b : Buttons)
    → (add_buttons codes b).clipboards ≡ (
        if b.clip_init
        then b.clipboards
        else (if is_any_long codes then suc b.clipboards else b.clipboards))
unfolding add_buttons
add_buttons-clipboards [] b = ground arith
add_buttons-clipboards (c ∷ codes) b = elim (Bool-cases (leb 6 (length c.code))) [
  | inl long ↦ rw (add_buttons-clipboards codes (add_button c b), long) (ground arith)
  | inr short ↦ rw (add_buttons-clipboards codes (add_button c b), short) (ground arith)
]

add_buttons-All :
    (codes : List Code) (b : Buttons)
    → All IsShown b.buttons
    → All IsShown (add_buttons codes b).buttons
unfolding add_buttons
add_buttons-All [] b h = h
add_buttons-All (c ∷ codes) b h =
    add_buttons-All codes (add_button c b) (elim (Bool-cases (leb 6 (length c.code))) [
      | inl long ↦
          rw long
            (All-append IsShown b.buttons (some (new_button c.pre) ∷ []) h (inl (refl, refl), tt))
      | inr short ↦ rw short (All-append IsShown b.buttons (none ∷ []) h (tt, tt))
    ])

-- A page with any code elements, and any successes, errors and copies of the clipboard and moves of
-- the mouse after it is loaded: a button that has no label has no tooltip classes either, and one with
-- a label has the class of tooltips and the one of its direction. The page makes one clipboard where
-- some code is longer than 5 characters, and else none.
happen_all-IsShown :
    (user_agent : Text) (codes : List Code) (es : List Event)
    → All IsShown
        (happen_all user_agent es
          record { all = (add_buttons codes no_buttons).buttons; pending = [] }).all
      × ((add_buttons codes no_buttons).clipboards ≡ (if is_any_long codes then 1 else 0))
happen_all-IsShown user_agent codes es = (
  happen_all-All user_agent es record { all = (add_buttons codes no_buttons).buttons; pending = [] }
      (add_buttons-All codes no_buttons tt),
  add_buttons-clipboards codes no_buttons,
)
