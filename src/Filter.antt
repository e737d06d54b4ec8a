-- ===== src/Filter.antt =====
-- pkg/module/filter.go: the filter file, which says for each module path and version whether the
-- proxy serves it, refuses it or sends the client upstream. This file holds the tree of rules;
-- Qualifiers.antt the tests on versions, and Config.antt the reader of the file.
pub mod Qualifiers
pub mod Config
pub mod Rules
mod Tests
use athens.Prelude.{
  split, Bool, true, false, ◌||◌, Option, none, some, List, [], ◌∷◌, ◌++◌, ◌==◌, text_eq,
  if◌then◌else◌, Text, text, is_empty,
}
use Qualifiers.{matches, trim_space, trim}

-- pkg/module/filterRule.go
pub data FilterRule : Type 0 where
  default include exclude direct : FilterRule

-- pkg/module/filter_rule.go: a rule, its qualifiers, and the children by path segment.
mutual
  pub data RuleNode : Type 0 where
    node : FilterRule → List Text → Children → RuleNode

  pub data Children : Type 0 where
    leaf : Children
    branch : Text → RuleNode → Children → Children

abbrev pub rule_of : RuleNode → FilterRule
rule_of (node r q c) = r

abbrev pub qualifiers_of : RuleNode → List Text
qualifiers_of (node r q c) = q

abbrev pub next_of : RuleNode → Children
next_of (node r q c) = c

-- The map `next`: a read, and a write.
unfoldable pub child : Children → Text → Option RuleNode
child leaf p = none
child (branch s n rest) p = if s == p then some n else child rest p

unfoldable pub put_child : Children → Text → RuleNode → Children
put_child leaf p new = branch p new leaf
put_child (branch s n rest) p new =
    if s == p then branch s new rest else branch s n (put_child rest p new)

abbrev pub new_rule : FilterRule → RuleNode
new_rule r = node r [] leaf

abbrev pub child_or_new : Option RuleNode → RuleNode
child_or_new none = new_rule default
child_or_new (some n) = n

-- `getSegments` of a path and of a version.
unfoldable pub get_segments : Text → Text → List Text
unfolding trim_space trim split
get_segments separator path =
    let trimmed = trim separator (trim_space path) in
    if is_empty trimmed then [] else split separator trimmed

unfoldable pub get_path_segments : Text → List Text
unfolding get_segments
get_path_segments path = get_segments (text "/") path

unfoldable pub ensure_segments : List Text → RuleNode → RuleNode
unfolding child put_child
ensure_segments [] n = n
ensure_segments (p ∷ ps) (node r q c) =
    node r q (put_child c p (ensure_segments ps (child_or_new (child c p))))

-- The write of `AddRule` at the last segment; the nodes above it are shared with the tree, so the
-- tree changes. A node that is not there is the zero value of Go, which a new node also is.
unfoldable pub set_rule : List Text → List Text → FilterRule → RuleNode → RuleNode
unfolding child put_child
set_rule [] qs rule (node r q c) = node rule qs c
set_rule (p ∷ ps) qs rule (node r q c) =
    node r q (put_child c p (set_rule ps qs rule (child_or_new (child c p))))

-- `AddRule`, on the segments of its path; at the root the qualifiers are not used.
unfoldable pub add_rule : List Text → List Text → FilterRule → RuleNode → RuleNode
unfolding ensure_segments set_rule
add_rule [] qs rule (node r q c) = node rule q c
add_rule (p ∷ ps) qs rule root = set_rule (p ∷ ps) qs rule (ensure_segments (p ∷ ps) root)

any_matches : Text → List Text → Bool
unfolding matches
any_matches version [] = false
any_matches version (q ∷ qs) = matches version q || any_matches version qs

-- Whether the rule of a node counts for a version.
unfoldable pub counts : Text → RuleNode → Bool
unfolding any_matches
counts version n =
    is_empty (qualifiers_of n) || (any_matches version (qualifiers_of n) || is_empty version)

-- The first loop of `getAssociatedRule`: the rules on the way that count.
unfoldable pub rules_on_path : Text → List Text → RuleNode → List FilterRule
rules_on_path version [] n = []
rules_on_path version (p ∷ ps) (node r q c) = elim (child c p) [
  | none ↦ []
  | some n ↦
      let below = rules_on_path version ps n in
      if counts version n then rule_of n ∷ below else below
]

abbrev pub is_default : FilterRule → Bool
is_default default = true
is_default _ = false

-- The second loop: the last rule that is not the default.
unfoldable pub last_rule : List FilterRule → FilterRule
last_rule [] = default
last_rule (r ∷ rs) = if is_default (last_rule rs) then r else last_rule rs

unfoldable pub get_associated_rule : RuleNode → Text → List Text → FilterRule
unfolding rules_on_path last_rule
get_associated_rule root version path =
    let found = last_rule (rules_on_path version path root) in
    if is_default found then rule_of root else found

-- `Rule`, with what it makes of the default.
unfoldable pub rule_at : RuleNode → List Text → Text → FilterRule
unfolding get_associated_rule
rule_at root path version =
    let found = get_associated_rule root version path in if is_default found then include else found

unfoldable pub rule : RuleNode → Text → Text → FilterRule
unfolding rule_at get_path_segments
rule root path version = rule_at root (get_path_segments path) version
