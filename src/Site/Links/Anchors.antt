-- ===== src/Site/Links/Anchors.antt =====
-- learn.js: anchorScrolls, which scrolls to an anchor below the fixed bar, and fallbackMessage. The
-- elements of the page are a parameter: the offset of the element with an id.
use athens.Prelude.{
  ◌≡◌, refl, ap, ℕ, ◌-◌, Bool, true, false, not, ◌&&◌, Option, none, some, List, [], ◌∷◌, ◌++◌,
  ◌==◌, nat_eq, text_eq, if◌then◌else◌, Text, text, contains, is_empty, arith, Option-cases, inl,
  inr, ◌⊎◌,
}
use athens.Site.Highlight.{find}

-- ANCHOR_REGEX: "#" and then at least one character, none of them a space.
unfoldable pub anchor_id : Text → Option Text
anchor_id [] = none
anchor_id (c ∷ id) =
    if c == b'#' && not (is_empty id) && not (contains id b' ') then some id else none

abbrev pub offset_height_px : ℕ
offset_height_px = 50

-- The scroll position and the addresses that were pushed to the history, last one first.
pub record View : Type 0 where
  pub scroll_top : ℕ
  pub pushed : List Text

module _ (history_support : Bool) (pathname : Text) (offset_of : Text → Option ℕ) where
  abbrev scroll_to : Option ℕ → Text → Bool → View → Bool × View
  scroll_to none href push v = (false, v)
  scroll_to (some top) href push v = (
    true,
    record {
      scroll_top = top - offset_height_px;
      pushed = if history_support && push then (pathname ++ href) ∷ v.pushed else v.pushed;
    },
  )

  -- `scrollIfAnchor`: whether the address is an anchor of the page, and the view after it. A link
  -- without `href` has none.
  unfoldable pub scroll_if_anchor : Option Text → Bool → View → Bool × View
  unfolding anchor_id
  scroll_if_anchor none push v = (false, v)
  scroll_if_anchor (some href) push v = elim (anchor_id href) [
    | none ↦ (false, v)
    | some id ↦ scroll_to (offset_of id) href push v
  ]

  -- `scrollToCurrent`, at an event or at the start: whether the default is prevented.
  unfoldable pub scroll_to_current : Bool → Text → View → Bool × View
  unfolding scroll_if_anchor
  scroll_to_current event hash v =
      let (found, w) = scroll_if_anchor (some hash) false v in (found && event, w)

  -- `delegateAnchors`
  unfoldable pub delegate_anchors : Option Text → View → Bool × View
  unfolding scroll_if_anchor
  delegate_anchors href v = scroll_if_anchor href true v

-- fallbackMessage; `/iPhone|iPad/i` and `/Mac/i` on the user agent.
abbrev matches_any : List Text → Text → Bool
matches_any words s = elim (find words s) [ none ↦ false | some m ↦ true ]

unfoldable pub fallback_message : Text → Text → Text
unfolding find
fallback_message user_agent action =
    let action_key = if action == text "cut" then text "X" else text "C" in
    if matches_any (text "iPhone" ∷ text "iPad" ∷ []) user_agent
    then text "No support :("
    else (if matches_any (text "Mac" ∷ []) user_agent
        then text "Press ⌘-" ++ action_key ++ text " to " ++ action
        else text "Press Ctrl-" ++ action_key ++ text " to " ++ action)

anchor_id-some :
    (href id : Text) → anchor_id href ≡ some id → (href ≡ b'#' ∷ id) × (contains id b' ' ≡ false)
unfolding anchor_id
anchor_id-some [] id h = absurd (cc)
anchor_id-some (c ∷ rest) id h = ground arith

-- A click on a link either changes nothing and goes on, or its address is "#" and the id of an
-- element, without a space: then the default is prevented, the page is scrolled to 50 pixels above
-- the element, or to the top, and the address is added to the history where that is supported.
delegate_anchors-cases :
    (history_support : Bool) (pathname : Text) (offset_of : Text → Option ℕ) (href : Option Text)
    (v : View)
    → (delegate_anchors history_support pathname offset_of href v ≡ (false, v))
      ⊎ ((id : Text) × (top : ℕ) × (href ≡ some (b'#' ∷ id))
          × (contains id b' ' ≡ false)
          × (offset_of id ≡ some top)
          × (delegate_anchors history_support pathname offset_of href v ≡ (
            true,
            record {
              scroll_top = top - 50;
              pushed = if history_support then (pathname ++ b'#' ∷ id) ∷ v.pushed else v.pushed;
            },
          )))
unfolding delegate_anchors
delegate_anchors-cases history_support pathname offset_of none v = inl refl
delegate_anchors-cases history_support pathname offset_of (some href) v =
    elim (Option-cases (anchor_id href)) [
      | inl other ↦ inl (rw (scroll_if_anchor, other))
      | inr (id, anchor) ↦ elim (Option-cases (offset_of id)) [
        | inl absent ↦ inl (rw (scroll_if_anchor, anchor, absent))
        | inr (top, there) ↦
            let (shape, no_space) = anchor_id-some href id anchor in
            inr (
              id,
              top,
              ap some shape,
              no_space,
              there,
              rw (scroll_if_anchor, anchor, there, shape) (ground arith),
            )
      ]
    ]
