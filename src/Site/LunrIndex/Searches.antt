-- ===== src/Site/LunrIndex/Searches.antt =====
-- What a search gives after the request for the index is answered.
use athens.Prelude.{
  ◌≡◌, refl, ◌∙◌, sym, true, Option, none, some, List, [], ◌∷◌, ◌++◌, append_assoc, append-nil,
  ◌==◌, text_eq, text_beq_iff, Text, text, All, Bool-cases, inl, inr, contains,
}
use athens.Site.Links.{page_of, pages_of, search, index_url}
use athens.Site.LunrIndex.{Index, done, add_all, build_index, answered, init_lunr, source, started}

abbrev pub all_some : List Text → List (Option Text)
all_some [] = []
all_some (ref ∷ refs) = some ref ∷ all_some refs

-- The query that `search` gives to lunr.
abbrev pub query_of : Text → Text
query_of term =
    term
    ++ text "^100"
    ++ text " "
    ++ term
    ++ text "*^10"
    ++ text " "
    ++ text "*"
    ++ term
    ++ text "^10"
    ++ text " "
    ++ term
    ++ text "~2^1"

module _ {ℓ} {P : Type ℓ} (uri : P → Text) where
  abbrev pub uris : List P → List Text
  uris [] = []
  uris (page ∷ pages) = uri page ∷ uris pages

  -- The references of the results, undefined where there is no page.
  abbrev pub results_uris : List (Option P) → List (Option Text)
  results_uris [] = []
  results_uris (result ∷ results) =
      elim result [ none ↦ none | some page ↦ some (uri page) ] ∷ results_uris results

  add_all-append : (added pages : List P) → add_all added pages ≡ added ++ pages
  unfolding add_all
  add_all-append added [] = sym (append-nil added)
  add_all-append added (page ∷ pages) =
      add_all-append (added ++ page ∷ []) pages ∙ append_assoc added (page ∷ []) pages

  page_of-found :
      (pages : List P) (ref : Text)
      → contains (uris pages) ref ≡ true
      → (page : P) × (page_of P uri pages ref ≡ some page) × (uri page ≡ ref)
  unfolding page_of contains
  page_of-found [] ref h = absurd (cc)
  page_of-found (page ∷ pages) ref h = elim (Bool-cases (uri page == ref)) [
    | inl here ↦ (page, rw here refl, (text_beq_iff (uri page) ref).0 here)
    | inr other ↦
        let (found, there, same) = page_of-found pages ref (rw (contains, other) at h) in
        (found, rw (page_of, other) there, same)
  ]

  results_uris-pages_of :
      (pages : List P) (refs : List Text)
      → All (λ ref. contains (uris pages) ref ≡ true) refs
      → results_uris (pages_of P uri pages refs) ≡ all_some refs
  unfolding pages_of
  results_uris-pages_of pages [] h = refl
  results_uris-pages_of pages (ref ∷ refs) (there, h) =
      let (page, found, same) = page_of-found pages ref there in
      rw (found, same, results_uris-pages_of pages refs h)

  All-same :
      {docs pages : List P}
      → docs ≡ pages
      → (refs : List Text) → All (λ ref. contains (uris docs) ref ≡ true) refs
      → All (λ ref. contains (uris pages) ref ≡ true) refs
  All-same same refs h = rw (sym same) h

  -- The index of the site is asked for once, at the base address with a slash and "index.json". After
  -- an answer with the pages, where every reference that lunr finds in an index is the address of a
  -- page that was added to it, a search gives pages with just the references that lunr finds, in its
  -- order. Before the answer a search throws.
  pub source-init_lunr :
      (lunr_search : Index P → Text → List Text)
      (finds_added : (index : Index P) (query : Text)
        → All (λ ref. contains (uris index.documents) ref ≡ true) (lunr_search index query))
      (baseurl term : Text) (pages : List P)
      → (results : List (Option P)) × (source uri lunr_search term
            (init_lunr (done pages) (started baseurl))
          ≡ some results)
        × (results_uris results ≡ all_some (lunr_search (build_index pages) (query_of term)))
        × (source uri lunr_search term (started baseurl) ≡ none)
        × ((init_lunr (done pages) (started baseurl)).requests ≡ index_url baseurl ∷ [])
  unfolding init_lunr answered source index_url search build_index
  source-init_lunr lunr_search finds_added baseurl term pages = (
    pages_of P uri pages (lunr_search (build_index pages) (query_of term)),
    refl,
    results_uris-pages_of pages (lunr_search (build_index pages) (query_of term)) (
        All-same (add_all-append [] pages) (lunr_search (build_index pages) (query_of term))
          (finds_added (build_index pages) (query_of term))),
    refl,
    refl,
  )
