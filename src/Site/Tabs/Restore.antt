-- ===== src/Site/Tabs/Restore.antt =====
-- What a reload of the page shows of the last clicks.
use athens.Prelude.{
  ℕ, ◌≡◌, refl, sym, ap, ◌∙◌, true, false, Option, none, some, List, [], ◌∷◌, ◌==◌, text_eq,
  text_beq_iff, if◌then◌else◌, Text, insert, lookup, lookup-insert, arith, Bool-cases, inl, inr,
}
use athens.Site.Tabs.{
  Item, set_active, activate, deactivate, Selections, selections_of, Browser, switch_items,
  switch_tab, restore_all, restore_tab_selections,
}

-- Every group stands once in the stored object.
abbrev pub HasUniqueGroups : Selections → Type 0
HasUniqueGroups [] = Unit
HasUniqueGroups ((group, id) ∷ saved) = (lookup saved group ≡ none) × HasUniqueGroups saved

HasUniqueGroups-insert :
    (saved : Selections) (group id : Text)
    → HasUniqueGroups saved
    → HasUniqueGroups (insert saved group id)
unfolding insert lookup
HasUniqueGroups-insert [] group id h = (refl, tt)
HasUniqueGroups-insert ((g, i) ∷ saved) group id (new, h) = elim (Bool-cases (group == g)) [
  | inl same ↦ rw same (new, h)
  | inr other ↦ rw other (
    lookup-insert saved group id g ∙ ground (arith, text_beq_iff g group, text_beq_iff group g),
    HasUniqueGroups-insert saved group id h,
  )
]

unfoldable switched : Text → Text → Item → Item
switched group id t = if t.group == group then set_active (t.item == id) t else t

activate-deactivate :
    (group id : Text) (t : Item) → activate group id (deactivate group t) ≡ switched group id t
unfolding switched
activate-deactivate group id t = elim (Bool-cases (t.group == group)) [
  | inr other ↦ rw (other, other)
  | inl same ↦ elim (Bool-cases (t.item == id)) [
    | inl this ↦ rw (same, same, this)
    | inr that ↦ rw (same, same, that)
  ]
]

-- What an item is after a reload.
abbrev chosen_by : Option Text → Item → Item
chosen_by none t = t
chosen_by (some id) t = set_active (t.item == id) t

unfoldable chosen : Selections → Item → Item
chosen saved t = chosen_by (lookup saved t.group) t

chosen-switched :
    (saved : Selections) (group id : Text) (t : Item)
    → lookup saved group ≡ none
    → chosen saved (switched group id t) ≡ chosen ((group, id) ∷ saved) t
unfolding chosen switched lookup
chosen-switched saved group id t new = elim (Bool-cases (t.group == group)) [
  | inr other ↦ rw (other)
  | inl same ↦ let here = (text_beq_iff t.group group).0 same in rw (same, here, new)
]

switched-chosen_by :
    (choice : Option Text) (group id : Text) (t : Item)
    → switched group id (chosen_by choice t)
      ≡ chosen_by (if t.group == group then some id else choice) t
unfolding switched
switched-chosen_by none group id t = elim (Bool-cases (t.group == group)) [
  | inl same ↦ rw same
  | inr other ↦ rw other
]
switched-chosen_by (some i) group id t = elim (Bool-cases (t.group == group)) [
  | inl same ↦ rw same
  | inr other ↦ rw other
]

switched-chosen :
    (saved : Selections) (group id : Text) (t : Item)
    → switched group id (chosen saved t) ≡ chosen (insert saved group id) t
unfolding chosen
switched-chosen saved group id t =
    rw (lookup-insert saved group id t.group, switched-chosen_by (lookup saved t.group) group id t)

unfoldable chosen_all : Selections → List Item → List Item
chosen_all saved [] = []
chosen_all saved (t ∷ items) = chosen saved t ∷ chosen_all saved items

chosen_all-[] : (items : List Item) → chosen_all [] items ≡ items
unfolding chosen_all chosen lookup
chosen_all-[] [] = refl
chosen_all-[] (t ∷ items) = ap (λ rest. t ∷ rest) (chosen_all-[] items)

chosen_all-switch_items :
    (saved : Selections) (group id : Text) (items : List Item)
    → lookup saved group ≡ none
    → chosen_all saved (switch_items group id items) ≡ chosen_all ((group, id) ∷ saved) items
unfolding chosen_all switch_items
chosen_all-switch_items saved group id [] new = refl
chosen_all-switch_items saved group id (t ∷ items) new = rw (
  ap (chosen saved) (activate-deactivate group id t) ∙ chosen-switched saved group id t new,
  chosen_all-switch_items saved group id items new,
)

switch_items-chosen_all :
    (saved : Selections) (group id : Text) (items : List Item)
    → switch_items group id (chosen_all saved items) ≡ chosen_all (insert saved group id) items
unfolding chosen_all switch_items
switch_items-chosen_all saved group id [] = refl
switch_items-chosen_all saved group id (t ∷ items) = rw (
  activate-deactivate group id (chosen saved t) ∙ switched-chosen saved group id t,
  switch_items-chosen_all saved group id items,
)

items-restore_all :
    (top : List Item → ℕ) (saved : Selections) (b : Browser)
    → HasUniqueGroups saved
    → (restore_all top saved b).items ≡ chosen_all saved b.items
unfolding restore_all switch_tab
items-restore_all top [] b h = sym (chosen_all-[] b.items)
items-restore_all top ((group, id) ∷ saved) b (new, h) =
    items-restore_all top saved (switch_tab top false group id b) h
    ∙ chosen_all-switch_items saved group id b.items new

-- A click on a tab, where localStorage is there, with a stored object or without one, which counts as
-- an empty one: a reload of the page then shows the items as they were with the choices from before
-- the click and after the click. Every group stands once in the stored object.
pub restore-switch_tab :
    (top : List Item → ℕ) (group id : Text) (b fresh : Browser) (stored : Option Selections)
    → HasUniqueGroups (selections_of stored)
    → b.tab_selections ≡ some stored
    → (restore_tab_selections top record {
      items = fresh.items;
      tab_selections = (switch_tab top true group id b).tab_selections;
      scroll_y = fresh.scroll_y;
    }).items
      ≡ switch_items group id (restore_all top (selections_of stored) fresh).items
unfolding restore_tab_selections switch_tab
restore-switch_tab top group id b fresh stored h there =
    let saved : Selections = selections_of stored in
    rw
      (
        there,
        items-restore_all top saved fresh h,
        switch_items-chosen_all saved group id fresh.items,
      )
      (items-restore_all top (insert saved group id)
        record {
          items = fresh.items;
          tab_selections = some (some (insert saved group id));
          scroll_y = fresh.scroll_y;
        }
        (HasUniqueGroups-insert saved group id h))
