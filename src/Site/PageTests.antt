-- ===== src/Site/PageTests.antt =====
-- The theorems on the handlers of a page at concrete inputs.
use athens.Prelude.{
  ◌≡◌, refl, Bool, true, false, Option, none, some, List, [], ◌∷◌, ◌++◌, ◌==◌, text_eq, text_beq,
  text_beq_iff, Text, text, contains, split, lookup, All, arith,
}
use athens.Site.Highlight.{text_node, element, Nodes, end, child, mark_text, non_empty}
use athens.Site.Highlight.Fuel.{mark_text-enough}
use athens.Site.Highlight.Content.{nodes_text}
use athens.Site.Links.{index_url}
use athens.Site.Clipboard.{copied_text}
use athens.Site.Clipboard.Buttons.{Code, add_buttons, no_buttons}
use athens.Site.Visited.{NavItem, Loaded, visit, search_for, clear_history, open_page, act_all}
use athens.Site.Visited.History.{seen_after, show, act_all-shows_seen}
use athens.Site.SearchBox.{Topic, Box, typed, cleared}
use athens.Site.SearchBox.Kept.{IsKept, IsClear}
use athens.Site.SearchBox.Runs.{act_all-IsKept, search_cleared}
use athens.Site.Suggestions.{context_of}
use athens.Site.LunrIndex.{build_index, init_lunr, done, source, started}
use athens.Site.LunrIndex.Searches.{results_uris, all_some, query_of, uris, source-init_lunr}

mark_text-enough_example :
    mark_text 20
      (non_empty (text "go" ∷ [] ∷ []))
      (text "MARK")
      (text "highlight")
      (text "Go, go!")
      end
    ≡ mark_text 8
        (non_empty (text "go" ∷ [] ∷ []))
        (text "MARK")
        (text "highlight")
        (text "Go, go!")
        end
mark_text-enough_example =
    mark_text-enough (text "go" ∷ [] ∷ []) (text "MARK") (text "highlight") (text "Go, go!") end 20
      (omega arith)

prompt_with_tab :
    copied_text (text "$ go build" ++ 10 ∷ text "$x") ≡ text "go build" ++ 10 ∷ text "$x"
unfolding copied_text
prompt_with_tab = refl

lone_dollar : copied_text (36 ∷ 10 ∷ text "go") ≡ text "go"
unfolding copied_text
lone_dollar = refl

abbrev codes : List Code
codes = record { code = text "go get"; pre = true } ∷ record { code = text "GET"; pre = false } ∷ []

abbrev is_one : Text → Bool
is_one value = value == text "1"

abbrev menu : List NavItem
menu =
    record { nav_id = text "/a/"; visited = false }
    ∷ record { nav_id = text "/b/"; visited = false }
    ∷ []

abbrev site : Text → Loaded
site url = record { items = menu; content = end }

act_all-shows_seen_example :
    (act_all is_one site
      (visit (text "/b/") ∷ search_for (text "go") ∷ clear_history ∷ [])
      (open_page is_one site (text "/a/") [])).page.items
    ≡ show
        (λ id.
          contains
            (seen_after
              (visit (text "/b/") ∷ search_for (text "go") ∷ clear_history ∷ [])
              (text "/a/")
              (text "/a/" ∷ []))
            id)
        menu
unfolding text_beq
act_all-shows_seen_example =
    act_all-shows_seen is_one refl site (text "/a/")
      (visit (text "/b/") ∷ search_for (text "go") ∷ clear_history ∷ []) (refl, (refl, tt))

abbrev content : Nodes
content = child (element (text "P") [] (child (text_node (text "a Go proxy")) end)) end

abbrev box : Box
box = record {
  page = record { content = content; session = [] };
  value = [];
  topics = record { search_match = false; displayed = true } ∷ [];
  searched = false;
  clear_handlers = 0;
}

act_all-IsKept_example :
    (c : Box) × (athens.Site.SearchBox.act_all
        (typed (text "go") ∷ typed (text "proxy") ∷ cleared ∷ [])
        box
      ≡ some c)
    × IsKept (text "a Go proxy") c.value c.page
unfolding nodes_text athens.Site.Unhighlight.Content.marks_are_texts text_beq contains split lookup
act_all-IsKept_example =
    act_all-IsKept (typed (text "go") ∷ typed (text "proxy") ∷ cleared ∷ []) (text "a Go proxy") box
      (refl, refl, refl)

search_cleared_example :
    (c : Box) × (athens.Site.SearchBox.act_all (typed (text "go") ∷ cleared ∷ []) box ≡ some c)
    × IsKept (nodes_text box.page.content) [] c.page
    × IsClear c
unfolding athens.Site.Unhighlight.Content.marks_are_texts text_beq contains split
search_cleared_example = search_cleared (text "go") box refl refl

two_words :
    context_of (text "roxy") (text "is a Go proxy for modules")
    ≡ some (text " Go proxy for modules")
unfolding context_of
two_words = refl

abbrev first_page : List Text → Text → List Text
first_page [] query = []
first_page (page ∷ pages) query = page ∷ []

first_page-added :
    (index : athens.Site.LunrIndex.Index Text) (query : Text)
    → All
        (λ ref. contains (uris (λ page. page) index.documents) ref ≡ true)
        (first_page index.documents query)
unfolding contains
first_page-added index query = go index.documents
  where
    go :
        (pages : List Text)
        → All (λ ref. contains (uris (λ page. page) pages) ref ≡ true) (first_page pages query)
    go [] = tt
    go (page ∷ pages) = (rw ((text_beq_iff page page).1 refl) refl, tt)

source-init_lunr_example :
    (results : List (Option Text)) × (source
        (λ page. page)
        (λ index query. first_page index.documents query)
        (text "go")
        (init_lunr (done (text "/a/" ∷ text "/b/" ∷ [])) (started (text "/docs")))
      ≡ some results)
    × (results_uris (λ page. page) results
        ≡ all_some (
            first_page
              (build_index (text "/a/" ∷ text "/b/" ∷ [])).documents
              (query_of (text "go"))))
    × (source
          (λ page. page)
          (λ index query. first_page index.documents query)
          (text "go")
          (started (text "/docs"))
        ≡ none)
    × ((init_lunr (done (text "/a/" ∷ text "/b/" ∷ [])) (started (text "/docs"))).requests
        ≡ index_url (text "/docs") ∷ [])
source-init_lunr_example =
    source-init_lunr (λ page. page) (λ index query. first_page index.documents query)
      first_page-added (text "/docs") (text "go") (text "/a/" ∷ text "/b/" ∷ [])

one_clipboard : (add_buttons codes no_buttons).clipboards ≡ 1
unfolding add_buttons
one_clipboard = refl
