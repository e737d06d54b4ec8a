-- ===== src/Site/Layout/Measures.antt =====
-- What the measures are.
use athens.Prelude.{
  ◌≡◌, refl, ap, ◌⊎◌, inl, inr, ◌≤◌, ℕ, ◌-◌, List, [], ◌∷◌, ◌++◌, ◌==◌, nat_eq, if◌then◌else◌, text,
  arith,
}
use athens.Site.Layout.{
  Style, style_of, BodyChild, page_child, measuring, remove_outer, scroll_bar_width,
}

abbrev pub page_children : List ℕ → List BodyChild
page_children [] = []
page_children (id ∷ ids) = page_child id ∷ page_children ids

remove_outer-page :
    (o : Style) (ids : List ℕ)
    → remove_outer (page_children ids ++ measuring o ∷ []) ≡ page_children ids
unfolding remove_outer
remove_outer-page o [] = refl
remove_outer-page o (id ∷ ids) = ap (λ cs. page_child id ∷ cs) (remove_outer-page o ids)

measured :
    (w1 w2 client bar : ℕ)
    → bar ≤ 200
    → w1 ≡ 200
    → ((w2 ≡ 200 - bar) ⊎ (w2 ≡ 200))
    → client ≡ 200 - bar
    → w1 - (if w1 == w2 then client else w2) ≡ bar
measured w1 w2 client bar h wide (inl inside) k = ground arith
measured w1 w2 client bar h wide (inr outside) k = ground arith

-- In a browser whose scroll bars have a width of at most 200 pixels and stand inside of the element
-- that they scroll, and that takes them off the width of what is in it, or off the client width alone:
-- the function gives that width, which is then at most 200 pixels, and leaves the page as it was.
scroll_bar_width-bar :
    (offset_width client_width : Style → ℕ) (bar : ℕ) (ids : List ℕ)
    → bar ≤ 200
    → offset_width (style_of (text "hidden")) ≡ 200
    → ((offset_width (style_of (text "scroll")) ≡ 200 - bar)
        ⊎ (offset_width (style_of (text "scroll")) ≡ 200))
    → client_width (style_of (text "scroll")) ≡ 200 - bar
    → (scroll_bar_width offset_width client_width (page_children ids) ≡ (bar, page_children ids))
      × ((scroll_bar_width offset_width client_width (page_children ids)).0 ≤ 200)
unfolding scroll_bar_width
scroll_bar_width-bar offset_width client_width bar ids small wide scrolled client =
    let width =
      measured (offset_width (style_of (text "hidden"))) (offset_width (style_of (text "scroll")))
        (client_width (style_of (text "scroll"))) bar small wide scrolled client in
    (rw (width, remove_outer-page (style_of (text "scroll")) ids) refl, rw width small)
