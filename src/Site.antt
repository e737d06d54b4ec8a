-- ===== src/Site.antt =====
-- docs/themes/hugo-theme-learn/static/js: the scripts that the documentation site itself has
-- (learn.js, search.js, hugo-learn.js). The libraries beside them, jQuery, lunr and the rest, are not
-- modelled; the page is modelled by what the scripts read and write of it.
pub mod Highlight
pub mod Unhighlight
pub mod Tabs
pub mod Panels
pub mod Debounce
pub mod Links
pub mod SearchBox
pub mod Suggestions
pub mod LunrIndex
pub mod Headings
pub mod Layout
pub mod Clipboard
pub mod Keyboard
pub mod Visited
mod Tests
mod PageTests
