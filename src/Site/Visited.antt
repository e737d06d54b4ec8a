-- ===== src/Site/Visited.antt =====
-- learn.js: the pages that were visited, which the session storage keeps, and the button that clears
-- it. `equals_one` is the comparison `== 1` of JavaScript on the texts of the storage; that it holds
-- of "1", as setItem writes the number 1, is a hypothesis of the theorems.
pub mod History
use athens.Prelude.{
  Bool, true, false, ◌||◌, List, [], ◌∷◌, Option, none, some, ◌==◌, text_eq, if◌then◌else◌, Text,
  text, insert, delete, lookup, is_empty,
}
use athens.Site.Highlight.{Nodes, highlight}

-- The elements with the attribute "data-nav-id".
pub record NavItem : Type 0 where
  pub nav_id : Text
  pub visited : Bool

pub record Loaded : Type 0 where
  pub items : List NavItem
  pub content : Nodes

-- `jQuery('[data-nav-id="' + url + '"]').addClass('visited')`, for an address without quotation marks
-- and backslashes.
unfoldable pub mark_visited : Text → List NavItem → List NavItem
mark_visited url [] = []
mark_visited url (item ∷ items) =
    record { nav_id = item.nav_id; visited = item.visited || item.nav_id == url }
    ∷ mark_visited url items

module _ (equals_one : Text → Bool) where
  -- The loop over the keys of the storage. Its methods, which the loop meets too, are no items of it.
  unfoldable pub mark_all : List (Text × Text) → List NavItem → List NavItem
  unfolding mark_visited
  mark_all [] items = items
  mark_all ((url, value) ∷ session) items =
      mark_all session (if equals_one value then mark_visited url items else items)

  -- The handler of the event "load": the session storage, and the page. Without a search value,
  -- `highlight` gets null and returns.
  unfoldable pub load : Text → List (Text × Text) → Loaded → List (Text × Text) × Loaded
  unfolding mark_all highlight
  load url session page =
      let stored = insert session url (text "1") in
      (
        stored,
        record {
          items = mark_all stored page.items;
          content = elim (lookup stored (text "search-value")) [
            | none ↦ page.content
            | some value ↦
                if is_empty value
                then page.content
                else highlight (value ∷ []) (text "MARK") page.content
          ];
        },
      )

-- What the search input does to the storage.
abbrev pub store_search : Text → List (Text × Text) → List (Text × Text)
store_search value session =
    if is_empty value
    then delete session (text "search-value")
    else insert session (text "search-value") value

-- The handler of "[data-clear-history-toggle]" clears the storage and loads the page again.
pub data Action : Type 0 where
  visit : Text → Action
  search_for : Text → Action
  clear_history : Action

-- The address that is shown, the session storage, and the page.
pub record Window : Type 0 where
  pub url : Text
  pub session : List (Text × Text)
  pub page : Loaded

-- served is the page at an address, before the scripts run.
module _ (equals_one : Text → Bool) (served : Text → Loaded) where
  abbrev pub open_page : Text → List (Text × Text) → Window
  open_page url session =
      let (stored, page) = load equals_one url session (served url) in
      record { url = url; session = stored; page = page }

  unfoldable pub act : Action → Window → Window
  unfolding load
  act (visit url) w = open_page url w.session
  act (search_for value) w = record {
    url = w.url;
    session = store_search value w.session;
    page = w.page;
  }
  act clear_history w = open_page w.url []

  unfoldable pub act_all : List Action → Window → Window
  unfolding act
  act_all [] w = w
  act_all (a ∷ actions) w = act_all actions (act a w)
