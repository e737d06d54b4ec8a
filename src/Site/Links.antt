-- ===== src/Site/Links.antt =====
-- Addresses in the scripts: getUrlParameter and the handlers of images (hugo-learn.js), the address of
-- the search index and the search (search.js). lunr, which ranks the results, is a parameter.
pub mod Parameters
pub mod Anchors
use athens.Prelude.{
  ℕ, zero, suc, ◌-◌, Bool, true, false, not, ◌&&◌, Option, none, some, List, [], ◌∷◌, ◌++◌, ◌==◌,
  text_eq, if◌then◌else◌, Text, text, insert, lookup, split, strip_prefix, length, leb,
}

-- The object of the parameters. A value is undefined where the parameter has no "=".
abbrev pub Parameters : Type 0
Parameters = List (Text × Option Text)

unfoldable pub set_parameter : Parameters → List Text → Parameters
set_parameter obj [] = obj
set_parameter obj (name ∷ []) = insert obj name none
set_parameter obj (name ∷ value ∷ more) = insert obj name (some value)

unfoldable pub set_parameters : Parameters → List Text → Parameters
unfolding set_parameter
set_parameters obj [] = obj
set_parameters obj (variable ∷ variables) =
    set_parameters (set_parameter obj (split (text "=") variable)) variables

abbrev parameters_of : List Text → Parameters
parameters_of (front ∷ query ∷ []) = set_parameters [] (split (text "&") query)
parameters_of url = []

unfoldable pub get_url_parameter : Text → Parameters
unfolding set_parameters
get_url_parameter s_page_url = parameters_of (split (text "?") s_page_url)

-- `o[name]` of JavaScript: a missing name and a name without a value are both undefined. The names
-- that objects inherit are not modelled; the scripts read four names, none of which is one of them.
abbrev pub read_parameter : Parameters → Text → Option Text
read_parameter obj name = elim (lookup obj name) [ none ↦ none | some value ↦ value ]

abbrev is_false : Option Text → Bool
is_false none = false
is_false (some f) = f == text "false"

-- The images outside of links get a link that opens them, unless their address says
-- "featherlight=false".
unfoldable pub wrap_image : Bool → Text → Option Text
unfolding get_url_parameter
wrap_image in_link src =
    let f = read_parameter (get_url_parameter src) (text "featherlight") in
    if not (is_false f) && not in_link
    then some (text "<a href='" ++ src ++ text "' data-featherlight='image'></a>")
    else none

-- The width, the height, and the classes that are added.
unfoldable pub image_style : Text → Text × Text × List Text
unfolding get_url_parameter
image_style src =
    let o = get_url_parameter src in
    (
      elim (read_parameter o (text "width")) [ none ↦ text "auto" | some w ↦ w ],
      elim (read_parameter o (text "height")) [ none ↦ text "auto" | some h ↦ h ],
      elim (read_parameter o (text "classes")) [ none ↦ [] | some c ↦ split (text ",") c ],
    )

-- `indexOf` from a place on: the rest of the text there, and its index.
unfoldable pub drop : ℕ → Text → Text
drop zero s = s
drop (suc n) [] = []
drop (suc n) (c ∷ s) = drop n s

unfoldable pub occurs : Text → Text → Bool
unfolding strip_prefix
occurs part [] = elim (strip_prefix part []) [ none ↦ false | some rest ↦ true ]
occurs part (c ∷ s) =
    let later = occurs part s in
    elim (strip_prefix part (c ∷ s)) [ none ↦ later | some rest ↦ true ]

-- endsWith: a negative start counts as 0.
unfoldable pub ends_with : Text → Text → Bool
unfolding drop occurs
ends_with str suffix = occurs suffix (drop (length str - length suffix) str)

-- The address of the index in initLunr.
unfoldable pub index_url : Text → Text
unfolding ends_with
index_url baseurl =
    (if not (ends_with baseurl (text "/")) then baseurl ++ text "/" else baseurl)
    ++ text "index.json"

module _ {ℓ} (P : Type ℓ) (uri : P → Text) where
  -- `pagesIndex.filter(…)[0]`
  unfoldable pub page_of : List P → Text → Option P
  page_of [] ref = none
  page_of (page ∷ pages) ref =
      let later = page_of pages ref in if uri page == ref then some page else later

  unfoldable pub pages_of : List P → List Text → List (Option P)
  unfolding page_of
  pages_of pages [] = []
  pages_of pages (ref ∷ refs) = page_of pages ref ∷ pages_of pages refs

  -- `search`, where lunr_search gives the references of the results.
  unfoldable pub search : (Text → List Text) → List P → Text → List (Option P)
  unfolding pages_of
  search lunr_search pages query = pages_of pages (
      lunr_search (
        query
        ++ text "^100"
        ++ text " "
        ++ query
        ++ text "*^10"
        ++ text " "
        ++ text "*"
        ++ query
        ++ text "^10"
        ++ text " "
        ++ query
        ++ text "~2^1"))
