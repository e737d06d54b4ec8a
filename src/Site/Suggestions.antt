-- ===== src/Site/Suggestions.antt =====
-- search.js: the suggestions of the search box, with up to two words before and behind the term. The
-- term stands in a regular expression as it is; here it has no character that is special there.
pub mod Matching
pub mod Context
use athens.Prelude.{
  ℕ, zero, suc, Bool, true, false, ◌||◌, ◌&&◌, Option, none, some, List, [], ◌∷◌, ◌++◌, ◌==◌,
  nat_eq, if◌then◌else◌, Text, text, leb, strip_prefix,
}
use athens.Site.Clipboard.{is_space}

-- What an expression can match at the start of a text, in the order in which the browser tries it:
-- the match, and the text behind it.
abbrev pub Matches : Type 0
Matches = List (Text × Text)

unfoldable pub put_before : Text → Matches → Matches
put_before before [] = []
put_before before ((m, rest) ∷ ms) = (before ++ m, rest) ∷ put_before before ms

unfoldable pub then_each : Matches → (Text → Matches) → Matches
unfolding put_before
then_each [] next = []
then_each ((m, rest) ∷ ms) next = put_before m (next rest) ++ then_each ms next

-- `\s?`, which tries the white space first.
unfoldable pub maybe_space : Text → Matches
maybe_space [] = ([], []) ∷ []
maybe_space (c ∷ s) = if is_space c then (c ∷ [], s) ∷ ([], c ∷ s) ∷ [] else ([], c ∷ s) ∷ []

-- `[\w]`
abbrev pub is_word : ℕ → Bool
is_word c =
    (leb b'0' c && leb c b'9')
    || ((leb b'A' c && leb c b'Z') || ((leb b'a' c && leb c b'z') || c == b'_'))

-- `[\w]+`, the longest match first.
unfoldable pub word : Text → Matches
unfolding put_before
word [] = []
word (c ∷ s) =
    let longer = put_before (c ∷ []) (word s) in
    if is_word c then longer ++ (c ∷ [], s) ∷ [] else []

-- `(?:\s?(?:[\w]+)\s?)`
unfoldable pub context_word : Text → Matches
unfolding maybe_space word then_each
context_word s = then_each (then_each (maybe_space s) word) maybe_space

-- The same with `{0,n}`: as many as there are first.
unfoldable pub context_words : ℕ → Text → Matches
unfolding context_word
context_words zero s = ([], s) ∷ []
context_words (suc n) s = then_each (context_word s) (context_words n) ++ ([], s) ∷ []

unfoldable pub literal : Text → Text → Matches
unfolding strip_prefix
literal term s = elim (strip_prefix term s) [ none ↦ [] | some rest ↦ (term, rest) ∷ [] ]

abbrev pub num_context_words : ℕ
num_context_words = 2

unfoldable pub in_context : Text → Text → Matches
unfolding context_words literal
in_context term s =
    then_each (then_each (context_words num_context_words s) (literal term))
      (context_words num_context_words)

-- `item.content.match(…)`: the first match at the first place that has one.
unfoldable pub context_of : Text → Text → Option Text
unfolding in_context
context_of term [] = elim (in_context term []) [ [] ↦ none | (m, rest) ∷ ms ↦ some m ]
context_of term (c ∷ content) =
    let later = context_of term content in
    elim (in_context term (c ∷ content)) [ [] ↦ later | (m, rest) ∷ ms ↦ some m ]

-- A page of the index, and the element that shows it: its attributes, its text, and the text of the
-- element of class "context" in it.
pub record Item : Type 0 where
  pub title : Text
  pub uri : Text
  pub content : Text

pub record Suggestion : Type 0 where
  pub data_term : Text
  pub data_title : Text
  pub data_uri : Text
  pub data_context : Text
  pub title_text : Text
  pub context_text : Text

-- renderItem: setAttribute writes the missing context, null, as a text.
unfoldable pub render_item : Item → Text → Suggestion
unfolding context_of
render_item item term = record {
  data_term = term;
  data_title = item.title;
  data_uri = item.uri;
  data_context = elim (context_of term item.content) [ none ↦ text "null" | some m ↦ m ];
  title_text = text "» " ++ item.title;
  context_text = elim (context_of term item.content) [ none ↦ [] | some m ↦ m ];
}

-- onSelect: the location after a suggestion is chosen.
unfoldable pub on_select : Suggestion → Text → Text
on_select suggestion location = suggestion.data_uri
