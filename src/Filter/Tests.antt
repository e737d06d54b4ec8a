-- ===== src/Filter/Tests.antt =====
-- The theorems on the filter at concrete inputs.
use athens.Prelude.{◌≡◌, refl, true, false, List, [], ◌∷◌, Text, text, text_beq, strip_prefix}
use athens.Errors.{ok}
use athens.Filter.{
  FilterRule, default, include, exclude, direct, RuleNode, new_rule, node, leaf, add_rule, rule,
  rule_at, counts, child, put_child,
}
use athens.Filter.Qualifiers.{matches}
use athens.Filter.Config.{Loaded, loaded, refused, panicked, read_qualifiers, init_from_config}
use athens.Filter.Rules.{rule_at-add_rule_self, rule_at-add_rule_other}

abbrev root : RuleNode
root = new_rule default

abbrev path : List Text
path = text "g.c" ∷ text "a" ∷ []

rule_at-add_rule_self_example : rule_at (add_rule path [] exclude root) path (text "v1") ≡ exclude
unfolding counts
rule_at-add_rule_self_example =
    rule_at-add_rule_self root (text "g.c") (text "a" ∷ []) [] exclude (text "v1") (λ e. cc) refl

rule_at-add_rule_other_example :
    rule_at (add_rule path [] exclude root) (text "g.c" ∷ text "b" ∷ []) (text "v1")
    ≡ rule_at root (text "g.c" ∷ text "b" ∷ []) (text "v1")
unfolding text_beq
rule_at-add_rule_other_example =
    rule_at-add_rule_other root path [] exclude (text "g.c" ∷ text "b" ∷ []) (text "v1") refl

less_takes_the_qualifier : matches (text "v1.2.3") (text "<v1.2.3") ≡ true
unfolding matches
less_takes_the_qualifier = refl

without_v : matches (text "v1.2.4") (text "~1.2.3") ≡ false
unfolding matches
without_v = refl

abbrev rule_in : Loaded RuleNode → Text → Text → FilterRule
rule_in (loaded r) name version = rule r name version
rule_in (refused e) name version = default
rule_in panicked name version = default

abbrev sample : Loaded RuleNode
sample = init_from_config (ok (text "-" ∷ text "# c" ∷ text " + g.c/a v0.1,v0.4.1" ∷ []))

file :
    (rule_in sample (text "g.c/a") (text "v0.1.7") ≡ include)
    × (rule_in sample (text "g.c/a") (text "v0.4.2") ≡ exclude)
    × (rule_in sample (text "g.c/b") (text "v0.1.7") ≡ exclude)
unfolding init_from_config rule counts athens.Filter.Config.read_line athens.Filter.Config.read_sign
    text_beq read_qualifiers strip_prefix
file = (refl, refl, refl)
