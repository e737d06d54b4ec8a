-- ===== src/Site/LunrIndex.antt =====
-- search.js: initLunr, which asks for the index of the site and builds the search index from it, and
-- the searches after it. lunr is a parameter: the references that a search of an index finds.
pub mod Searches
use athens.Prelude.{
  ℕ, Bool, not, Option, none, some, List, [], ◌∷◌, ◌++◌, if◌then◌else◌, Text, text,
}
use athens.Site.Links.{ends_with, search}

-- `this.field(name, { boost: … })`
pub record Field : Type 0 where
  pub name : Text
  pub boost : ℕ

module _ {ℓ} (P : Type ℓ) where
  -- What the function of `lunr(…)` declares and adds: the reference, the fields, what is left of the
  -- two pipelines, and the pages in their order.
  pub record Index : Type ℓ where
    pub ref : Text
    pub fields : List Field
    pub stems_pages : Bool
    pub stems_queries : Bool
    pub documents : List P

  -- The variables of the script, the addresses that were asked for, and the errors that were logged.
  pub record Script : Type ℓ where
    pub baseurl : Text
    pub lunr_index : Option Index
    pub pages_index : Option (List P)
    pub requests : List Text
    pub logged : List (Text × Text)

  -- How the request for the index ends.
  pub data Answer : Type ℓ where
    done : List P → Answer
    fail : Text → Text → Answer

abbrev pub with_slash : Text → Text
with_slash baseurl = if not (ends_with baseurl (text "/")) then baseurl ++ text "/" else baseurl

module _ {ℓ} {P : Type ℓ} where
  -- `pagesIndex.forEach(function(page) { this.add(page) })`
  unfoldable pub add_all : List P → List P → List P
  add_all added [] = added
  add_all added (page ∷ pages) = add_all (added ++ page ∷ []) pages

  -- A new index stems pages and queries until the stemmer is removed from its pipelines.
  unfoldable pub build_index : List P → Index P
  unfolding add_all
  build_index pages = record {
    ref = text "uri";
    fields =
        record { name = text "title"; boost = 15 }
        ∷ record { name = text "tags"; boost = 10 }
        ∷ record { name = text "content"; boost = 5 }
        ∷ [];
    stems_pages = Bool.false;
    stems_queries = Bool.false;
    documents = add_all [] pages;
  }

  unfoldable pub answered : Answer P → Script P → Script P
  unfolding build_index
  answered (done index) s = record {
    baseurl = s.baseurl;
    lunr_index = some (build_index index);
    pages_index = some index;
    requests = s.requests;
    logged = s.logged;
  }
  answered (fail text_status error) s = record {
    baseurl = s.baseurl;
    lunr_index = s.lunr_index;
    pages_index = s.pages_index;
    requests = s.requests;
    logged =
        s.logged ++ (text "Error getting Hugo index file:", text_status ++ text ", " ++ error) ∷ [];
  }

  unfoldable pub init_lunr : Answer P → Script P → Script P
  unfolding answered ends_with
  init_lunr answer s = answered answer record {
    baseurl = with_slash s.baseurl;
    lunr_index = s.lunr_index;
    pages_index = s.pages_index;
    requests = s.requests ++ (with_slash s.baseurl ++ text "index.json") ∷ [];
    logged = s.logged;
  }

  -- The function `source` of the suggestions: none where `search` throws, since a variable is
  -- undefined.
  unfoldable pub source :
      (P → Text) → (Index P → Text → List Text) → Text → Script P → Option (List (Option P))
  unfolding search
  source uri lunr_search term s = elim s.lunr_index [
    | none ↦ none
    | some index ↦ elim s.pages_index [
      | none ↦ none
      | some pages ↦ some (search P uri (lunr_search index) pages term)
    ]
  ]

-- The script before the request is answered.
abbrev pub started {ℓ} : {P : Type ℓ} → Text → Script P
started baseurl = record {
  baseurl = baseurl;
  lunr_index = none;
  pages_index = none;
  requests = [];
  logged = [];
}
