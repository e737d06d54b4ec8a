-- ===== src/Site/Visited/History.antt =====
-- Which pages are shown as visited.
use athens.Prelude.{
  text_eq, text_beq_iff, ◌≡◌, refl, ap, ◌∙◌, sym, Bool, true, false, ◌&&◌, ◌||◌, List, [], ◌∷◌,
  ◌==◌, Text, text, arith, Bool-cases, inl, inr, insert, delete, contains, is_empty, All,
}
use athens.Site.Visited.{
  NavItem, Loaded, mark_visited, mark_all, load, store_search, Action, visit, search_for,
  clear_history, Window, open_page, act, act_all,
}

-- The pages that were visited since the history was cleared, last one first; the page that is shown
-- is one of them.
abbrev pub seen_after : List Action → Text → List Text → List Text
seen_after [] url seen = seen
seen_after (visit next ∷ actions) url seen = seen_after actions next (next ∷ seen)
seen_after (search_for value ∷ actions) url seen = seen_after actions url seen
seen_after (clear_history ∷ actions) url seen = seen_after actions url (url ∷ [])

abbrev pub url_after : List Action → Text → Text
url_after [] url = url
url_after (visit next ∷ actions) url = url_after actions next
url_after (search_for value ∷ actions) url = url_after actions url
url_after (clear_history ∷ actions) url = url_after actions url

abbrev pub show : (Text → Bool) → List NavItem → List NavItem
show seen [] = []
show seen (item ∷ items) =
    record { nav_id = item.nav_id; visited = item.visited || seen item.nav_id } ∷ show seen items

-- No element has the key of the search value for an address.
abbrev pub IsPage : NavItem → Type 0
IsPage item = item.nav_id == text "search-value" ≡ false

or_twice : (a v m : Bool) → (a || m) ≡ (a || ((v && a) || m))
or_twice true v m = refl
or_twice false true m = refl
or_twice false false m = refl

or_behind : (a b c : Bool) → (a || (b || c)) ≡ (b || (a || c))
or_behind true true c = refl
or_behind true false c = refl
or_behind false b c = refl

show-show :
    (f g : Text → Bool) (items : List NavItem)
    → show g (show f items) ≡ show (λ id. f id || g id) items
show-show f g [] = refl
show-show f g (item ∷ items) = rw (show-show f g items) (ground arith)

show-none : (items : List NavItem) → show (λ id. false) items ≡ items
show-none [] = refl
show-none (item ∷ items) = rw (show-none items) (ground arith)

mark_visited-show :
    (url : Text) (items : List NavItem) → mark_visited url items ≡ show (λ id. id == url) items
unfolding mark_visited
mark_visited-show url [] = refl
mark_visited-show url (item ∷ items) = rw (mark_visited-show url items)

show-equal :
    (f g : Text → Bool) (same : (id : Text) → f id ≡ g id) (items : List NavItem)
    → show f items ≡ show g items
show-equal f g same [] = refl
show-equal f g same (item ∷ items) = rw (show-equal f g same items, same item.nav_id)

same-sym : (a b : Text) → (a == b) ≡ (b == a)
same-sym a b = ground (arith, text_beq_iff a b, text_beq_iff b a)

show-same :
    (f g : Text → Bool) (same : (id : Text) → id == text "search-value" ≡ false → f id ≡ g id)
    (items : List NavItem)
    → All IsPage items
    → show f items ≡ show g items
show-same f g same [] h = refl
show-same f g same (item ∷ items) (page, h) = rw (show-same f g same items h, same item.nav_id page)

module _ (equals_one : Text → Bool) (one : equals_one (text "1") ≡ true) where
  abbrev marked : List (Text × Text) → Text → Bool
  marked [] id = false
  marked ((key, value) ∷ session) id = (equals_one value && id == key) || marked session id

  mark_all-marked :
      (session : List (Text × Text)) (items : List NavItem)
      → mark_all equals_one session items ≡ show (marked session) items
  unfolding mark_all mark_visited
  mark_all-marked [] items = sym (show-none items)
  mark_all-marked ((url, value) ∷ session) items = elim (Bool-cases (equals_one value)) [
    | inl marks ↦ rw marks (
        mark_all-marked session (mark_visited url items)
        ∙ ap (λ is. show (marked session) is) (mark_visited-show url items)
        ∙ show-show (λ id. id == url) (marked session) items
        ∙ show-equal (λ id. id == url || marked session id) (marked ((url, value) ∷ session))
            (λ id. rw marks refl) items)
    | inr other ↦ rw other (
        mark_all-marked session items
        ∙ show-equal (marked session) (marked ((url, value) ∷ session)) (λ id. rw other refl) items)
  ]

  marked-insert_one :
      (session : List (Text × Text)) (url id : Text)
      → marked (insert session url (text "1")) id ≡ (id == url || marked session id)
  unfolding insert
  marked-insert_one [] url id = rw one refl
  marked-insert_one ((key, value) ∷ session) url id = elim (Bool-cases (url == key)) [
    | inl same ↦
        let here = (text_beq_iff url key).0 same in
        rw (same, one, here) (or_twice (id == key) (equals_one value) (marked session id))
    | inr other ↦
        rw (other, marked-insert_one session url id)
          (or_behind (equals_one value && id == key) (id == url) (marked session id))
  ]

  module _ (id : Text) (page : id == text "search-value" ≡ false) where
    marked-insert_search :
        (session : List (Text × Text)) (value : Text)
        → marked (insert session (text "search-value") value) id ≡ marked session id
    unfolding insert
    marked-insert_search [] value = rw page (ground arith)
    marked-insert_search ((key, old) ∷ session) value =
        elim (Bool-cases (text "search-value" == key)) [
          | inl same ↦
              let here = (text_beq_iff (text "search-value") key).0 same in
              rw (same, sym here, page) (ground arith)
          | inr other ↦ rw (other, marked-insert_search session value)
        ]

    marked-delete :
        (session : List (Text × Text))
        → marked (delete session (text "search-value")) id ≡ marked session id
    unfolding delete
    marked-delete [] = refl
    marked-delete ((key, old) ∷ session) = elim (Bool-cases (text "search-value" == key)) [
      | inl same ↦
          let here = (text_beq_iff (text "search-value") key).0 same in
          rw (same, marked-delete session, sym here, page) (ground arith)
      | inr other ↦ rw (other, marked-delete session)
    ]

    marked-store_search :
        (value : Text) (session : List (Text × Text))
        → marked (store_search value session) id ≡ marked session id
    marked-store_search value session = elim (Bool-cases (is_empty value)) [
      | inl blank ↦ rw blank (marked-delete session)
      | inr some_value ↦ rw some_value (marked-insert_search session value)
    ]

  module _ (served : Text → Loaded) where
    -- The storage marks what was seen, and the page shows it.
    abbrev Shows : Window → List Text → Type 0
    Shows w seen =
        ((id : Text) → id == text "search-value" ≡ false → marked w.session id ≡ contains seen id)
        × (All IsPage (served w.url).items
            → w.page.items ≡ show (λ id. contains seen id) (served w.url).items)

    open_page-Shows :
        (url : Text) (session : List (Text × Text)) (seen : List Text)
        → ((id : Text) → id == text "search-value" ≡ false → marked session id ≡ contains seen id)
        → Shows (open_page equals_one served url session) (url ∷ seen)
    unfolding load contains
    open_page-Shows url session seen h = (
      marks,
      λ pages.
          mark_all-marked (insert session url (text "1")) (served url).items
          ∙ show-same (marked (insert session url (text "1"))) (λ id. contains (url ∷ seen) id)
              marks (served url).items pages,
    )
      where
        marks :
            (id : Text)
            → id == text "search-value" ≡ false
            → marked (insert session url (text "1")) id ≡ contains (url ∷ seen) id
        marks id page = rw (marked-insert_one session url id, h id page, same-sym id url)

    act_all-Shows :
        (actions : List Action) (w : Window) (seen : List Text)
        → Shows w seen
        → (Shows (act_all equals_one served actions w) (seen_after actions w.url seen))
          × ((act_all equals_one served actions w).url ≡ url_after actions w.url)
    unfolding act_all act contains
    act_all-Shows [] w seen h = (h, refl)
    act_all-Shows (visit next ∷ actions) w seen (h, k) =
        act_all-Shows actions (open_page equals_one served next w.session) (next ∷ seen)
          (open_page-Shows next w.session seen h)
    act_all-Shows (search_for value ∷ actions) w seen (h, k) =
        act_all-Shows actions
          record { url = w.url; session = store_search value w.session; page = w.page } seen
          (λ id page. marked-store_search id page value w.session ∙ h id page, k)
    act_all-Shows (clear_history ∷ actions) w seen (h, k) =
        act_all-Shows actions (open_page equals_one served w.url []) (w.url ∷ [])
          (open_page-Shows w.url [] [] (λ id page. refl))

    -- A visitor opens a page with an empty session storage, and then visits pages, searches and clears
    -- the history in any order. Where no element of the page that is shown then has the address
    -- "search-value", its elements are those that are served, and exactly those whose address was
    -- visited since the history was cleared, or that were served so, have the class "visited". The
    -- page at which the history was cleared counts as visited.
    pub act_all-shows_seen :
        (first : Text) (actions : List Action)
        → All IsPage (served (url_after actions first)).items
        → (act_all equals_one served actions (open_page equals_one served first [])).page.items
          ≡ show
              (λ id. contains (seen_after actions first (first ∷ [])) id)
              (served (url_after actions first)).items
    unfolding contains
    act_all-shows_seen first actions pages =
        let ((marks, shows), same_url) =
          act_all-Shows actions (open_page equals_one served first []) (first ∷ [])
            (open_page-Shows first [] [] (λ id page. refl)) in
        rw (sym same_url) (shows (rw same_url pages))
