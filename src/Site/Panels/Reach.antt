-- ===== src/Site/Panels/Reach.antt =====
-- The variables agree with the classes of the body.
use athens.Prelude.{Bool-cases, ◌∙◌, sym, ◌⊎◌, inl, inr, ◌≡◌, refl, false, not, if◌then◌else◌}
use athens.Site.Panels.{
  Status, opened, closed, Page, Click, overlay, sidebar_toggle, search_toggle, status,
  toggle_sidebar, toggle_search, click, loaded,
}

-- The pages that clicks can lead to.
pub data Reach : Page → Type 0 where
  start : Reach loaded
  then_click : (c : Click) (p : Page) → Reach p → Reach (click c p)

abbrev pub IsInStep : Page → Type 0
IsInStep p =
    (p.sidebar_status ≡ status p.sidebar_hidden) × (p.search_status ≡ status p.searchbox_hidden)

Status-cases : (s : Status) → (s ≡ closed) ⊎ (s ≡ opened)
Status-cases closed = inl refl
Status-cases opened = inr refl

click-IsInStep : (c : Click) (p : Page) → IsInStep p → IsInStep (click c p)
unfolding click toggle_sidebar toggle_search
click-IsInStep overlay p (h, k) = (refl, k)
click-IsInStep sidebar_toggle p (h, k) = (refl, k)
click-IsInStep search_toggle p (h, k) = elim (Status-cases p.sidebar_status) [
  | inl shut ↦ rw (shut) (refl, refl)
  | inr shown ↦ rw (shown) (sym shown ∙ h, refl)
]

-- After any clicks the variables sidebarStatus and searchStatus say what the classes of the body
-- say.
Reach-IsInStep : (p : Page) → Reach p → IsInStep p
unfolding loaded
Reach-IsInStep p start = (refl, refl)
Reach-IsInStep _ (then_click c p r) = click-IsInStep c p (Reach-IsInStep p r)

-- After any clicks, a click on the search toggle leaves the sidebar visible; the search box is then
-- visible where the sidebar was hidden or the search box was.
search_toggle-opens :
    (p : Page)
    → Reach p
    → ((click search_toggle p).sidebar_hidden ≡ false)
      × ((click search_toggle p).searchbox_hidden
          ≡ (if p.sidebar_hidden then false else not p.searchbox_hidden))
unfolding click toggle_sidebar toggle_search
search_toggle-opens p r = elim (Bool-cases p.sidebar_hidden) [
  | inl hidden ↦ let shut = rw hidden at (Reach-IsInStep p r).0 in rw (hidden, shut) (refl, refl)
  | inr visible ↦
      let shown = rw visible at (Reach-IsInStep p r).0 in rw (visible, shown) (refl, refl)
]
