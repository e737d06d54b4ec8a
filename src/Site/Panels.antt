-- ===== src/Site/Panels.antt =====
-- learn.js: the handlers of the sidebar and of the search box, and the scripts' variables that say
-- which of them is open.
pub mod Reach
use athens.Prelude.{Bool, true, false, not, if◌then◌else◌}

pub data Status : Type 0 where
  opened closed : Status

-- The classes "sidebar-hidden" and "searchbox-hidden" of the body, and the variables.
pub record Page : Type 0 where
  pub sidebar_hidden : Bool
  pub searchbox_hidden : Bool
  pub sidebar_status : Status
  pub search_status : Status

pub data Click : Type 0 where
  overlay sidebar_toggle search_toggle : Click

abbrev pub status : Bool → Status
status hidden = if hidden then closed else opened

unfoldable pub toggle_sidebar : Page → Page
toggle_sidebar p = record {
  sidebar_hidden = not p.sidebar_hidden;
  searchbox_hidden = p.searchbox_hidden;
  sidebar_status = status (not p.sidebar_hidden);
  search_status = p.search_status;
}

-- With a closed sidebar the handler triggers a click on the sidebar toggle.
unfoldable pub toggle_search : Page → Page
unfolding toggle_sidebar
toggle_search p = elim p.sidebar_status [
  | closed ↦
      let q = toggle_sidebar p in
      record {
        sidebar_hidden = q.sidebar_hidden;
        searchbox_hidden = false;
        sidebar_status = q.sidebar_status;
        search_status = opened;
      }
  | opened ↦ record {
    sidebar_hidden = p.sidebar_hidden;
    searchbox_hidden = not p.searchbox_hidden;
    sidebar_status = p.sidebar_status;
    search_status = status (not p.searchbox_hidden);
  }
]

unfoldable pub click : Click → Page → Page
unfolding toggle_sidebar toggle_search
click overlay p = toggle_sidebar p
click sidebar_toggle p = toggle_sidebar p
click search_toggle p = toggle_search p

-- The page as it is served has none of the two classes.
unfoldable pub loaded : Page
loaded = record {
  sidebar_hidden = false;
  searchbox_hidden = false;
  sidebar_status = opened;
  search_status = opened;
}
