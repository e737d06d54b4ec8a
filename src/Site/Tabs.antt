-- ===== src/Site/Tabs.antt =====
-- learn.js: switchTab and restoreTabSelections, the tabs of a page and the choice that localStorage
-- keeps. The stored object is kept as it is, in place of its JSON text.
pub mod Restore
use athens.Prelude.{
  ℕ, ◌+◌, ◌-◌, Bool, true, false, ◌&&◌, Option, none, some, List, [], ◌∷◌, ◌==◌, text_eq,
  if◌then◌else◌, Text, insert,
}

-- An element with `data-tab-group` and `data-tab-item`, and whether it has the class "active".
pub record Item : Type 0 where
  pub group : Text
  pub item : Text
  pub active : Bool

abbrev pub Selections : Type 0
Selections = List (Text × Text)

-- localStorage is missing, or "tabSelections" is missing in it, or it is there.
pub record Browser : Type 0 where
  pub items : List Item
  pub tab_selections : Option (Option Selections)
  pub scroll_y : ℕ

abbrev pub set_active : Bool → Item → Item
set_active on t = record { group = t.group; item = t.item; active = on }

abbrev pub deactivate : Text → Item → Item
deactivate group t = if t.group == group then set_active false t else t

abbrev pub activate : Text → Text → Item → Item
activate group id t = if t.group == group && t.item == id then set_active true t else t

-- `allTabItems.removeClass("active")`
unfoldable pub remove_active : Text → List Item → List Item
remove_active group [] = []
remove_active group (t ∷ items) = deactivate group t ∷ remove_active group items

-- `targetTabItems.addClass("active")`
unfoldable pub add_active : Text → Text → List Item → List Item
add_active group id [] = []
add_active group id (t ∷ items) = activate group id t ∷ add_active group id items

unfoldable pub switch_items : Text → Text → List Item → List Item
unfolding remove_active add_active
switch_items group id items = add_active group id (remove_active group items)

abbrev pub selections_of : Option Selections → Selections
selections_of none = []
selections_of (some saved) = saved

abbrev pub store_selection : Text → Text → Option (Option Selections) → Option (Option Selections)
store_selection group id none = none
store_selection group id (some saved) = some (some (insert (selections_of saved) group id))

-- The layout: how far the clicked button is below the top of the document. A scroll position is at
-- least 0, as subtraction on ℕ has it.
module _ (button_top : List Item → ℕ) where
  -- `switchTab` with a button event, and without one.
  unfoldable pub switch_tab : Bool → Text → Text → Browser → Browser
  unfolding switch_items
  switch_tab false group id b = record {
    items = switch_items group id b.items;
    tab_selections = b.tab_selections;
    scroll_y = b.scroll_y;
  }
  switch_tab true group id b = record {
    items = switch_items group id b.items;
    tab_selections = store_selection group id b.tab_selections;
    scroll_y = (b.scroll_y + button_top (switch_items group id b.items)) - button_top b.items;
  }

  unfoldable pub restore_all : Selections → Browser → Browser
  unfolding switch_tab
  restore_all [] b = b
  restore_all ((group, id) ∷ saved) b = restore_all saved (switch_tab false group id b)

  unfoldable pub restore_tab_selections : Browser → Browser
  unfolding restore_all
  restore_tab_selections b = elim b.tab_selections [
    | none ↦ b
    | some saved ↦ restore_all (selections_of saved) b
  ]
