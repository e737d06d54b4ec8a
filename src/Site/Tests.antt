-- ===== src/Site/Tests.antt =====
-- The theorems on the scripts at concrete inputs.
use athens.Prelude.{
  ℕ, ◌≡◌, refl, Bool, true, false, Option, none, some, [], ◌∷◌, ◌++◌, text_eq, nat_eq, text_beq,
  split, insert, Text, text, contains, lookup, if◌then◌else◌, arith,
}
use athens.Site.Highlight.{Node, text_node, element, Nodes, end, child, highlight, highlight_nodes}
use athens.Site.Tabs.{Item, Browser, switch_items, switch_tab, restore_all, restore_tab_selections}
use athens.Site.Tabs.Restore.{restore-switch_tab}
use athens.Site.Panels.{Page, overlay, search_toggle, click, loaded}
use athens.Site.Debounce.Burst.{idle, burst, settle, settle-burst}
use athens.Site.Links.{get_url_parameter, read_parameter, index_url, image_style}
use athens.Site.Links.Parameters.{print_query, last_value, read_parameter-get_url_parameter}

abbrev paragraph : Nodes
paragraph = child (element (text "P") [] (child (text_node (text "a Go proxy")) end)) end

marked :
    highlight (text "go" ∷ []) (text "MARK") paragraph
    ≡ child
        (element (text "P") [] (
          child (text_node (text "a ")) (
            child
              (element (text "MARK") (text "highlight") (child (text_node (text "Go")) end))
              (child (text_node (text " proxy")) end))))
        end
unfolding highlight athens.Site.Highlight.skips text_beq athens.Site.Highlight.mark_text
marked = refl

abbrev tab : Text → Bool → Item
tab item active = record { group = text "os"; item = item; active = active }

abbrev browser : Browser
browser = record {
  items = tab (text "mac") true ∷ tab (text "linux") false ∷ [];
  tab_selections = some none;
  scroll_y = 0;
}

restore-switch_tab_example :
    (restore_tab_selections
      (λ items. 0)
      record {
        items = browser.items;
        tab_selections =
            (switch_tab (λ items. 0) true (text "os") (text "linux") browser).tab_selections;
        scroll_y = browser.scroll_y;
      }).items
    ≡ switch_items (text "os") (text "linux") (restore_all (λ items. 0) [] browser).items
unfolding lookup
restore-switch_tab_example =
    restore-switch_tab (λ items. 0) (text "os") (text "linux") browser browser none tt refl

abbrev two_clicks : Page
two_clicks = click search_toggle (click overlay loaded)

settle-burst_example :
    (settle {A = ℕ} 0 false 3 (burst 0 false ((1, 40) ∷ (2, 99) ∷ []) (idle 1 []))).calls
    ≡ (if false then 1 else 3) ∷ []
settle-burst_example =
    settle-burst 0 false ((1, 40) ∷ (2, 99) ∷ []) 1 3 [] (omega arith, (omega arith, tt))

read_parameter-get_url_parameter_example :
    read_parameter
      (get_url_parameter (text "a.png" ++ b'?' ∷ print_query (text "w") (text "5") []))
      (text "w")
    ≡ last_value ((text "w", text "5") ∷ []) (text "w")
unfolding contains
read_parameter-get_url_parameter_example =
    read_parameter-get_url_parameter (text "a.png") (text "w") (text "5") [] (text "w")
      (refl, refl, refl) (((refl, refl, refl), (refl, refl, refl)), tt)

style :
    image_style (text "a.png?width=5&classes=b,c")
    ≡ (text "5", text "auto", text "b" ∷ text "c" ∷ [])
unfolding image_style lookup split insert text_beq
style = refl

index : index_url (text "https://d.io") ≡ text "https://d.io/index.json"
unfolding index_url
index = refl

abbrev offset_of : Text → Option ℕ
offset_of id = some 80
