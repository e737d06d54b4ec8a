-- ===== src/Filter/Rules.antt =====
-- Which rule applies to a path: that of the deepest node on the path that has one, and what adding
-- a rule changes.
use athens.Prelude.{
  ◌≡◌, ◌≢◌, refl, ◌∙◌, sym, Bool, true, false, none, some, List, [], ◌∷◌, ◌==◌, text_eq, text_beq,
  if◌then◌else◌, Text, arith, text_beq_iff, Bool-cases, Option-cases, inl, inr,
}
use athens.Filter.{
  FilterRule, default, include, RuleNode, node, Children, leaf, branch, rule_of, next_of, child,
  put_child, new_rule, child_or_new, ensure_segments, set_rule, add_rule, counts, rules_on_path,
  is_default, last_rule, rule_at,
}

-- The rule of the deepest node on the path that counts for the version and is not the default.
unfoldable pub deepest : Text → List Text → RuleNode → FilterRule
deepest version [] n = default
deepest version (p ∷ ps) n = elim (child (next_of n) p) [
  | none ↦ default
  | some m ↦
      let below = deepest version ps m in
      if is_default below then (if counts version m then rule_of m else default) else below
]

last_rule-deepest :
    (version : Text) (path : List Text) (n : RuleNode)
    → last_rule (rules_on_path version path n) ≡ deepest version path n
unfolding last_rule rules_on_path deepest
last_rule-deepest version [] n = refl
last_rule-deepest version (p ∷ ps) (node r q c) = elim (Option-cases (child c p)) [
  | inl missing ↦ ground arith
  | inr (m, there) ↦ ground (arith, last_rule-deepest version ps m)
]

child-put_child :
    (c : Children) (p : Text) (new : RuleNode) (s : Text)
    → child (put_child c p new) s ≡ (if p == s then some new else child c s)
unfolding child put_child
child-put_child leaf p new s = refl
child-put_child (branch t n rest) p new s =
    ground
      (arith, child-put_child rest p new s, text_beq_iff t p, text_beq_iff t s, text_beq_iff p s)

abbrev pub is_prefix : List Text → List Text → Bool
is_prefix [] q = true
is_prefix (p ∷ ps) [] = false
is_prefix (p ∷ ps) (s ∷ q) = if p == s then is_prefix ps q else false

next-set_rule :
    (p : Text) (ps qs : List Text) (r : FilterRule) (n : RuleNode) (s : Text)
    → child (next_of (set_rule (p ∷ ps) qs r n)) s ≡ (
        if p == s
        then some (set_rule ps qs r (child_or_new (child (next_of n) p)))
        else child (next_of n) s)
unfolding set_rule
next-set_rule p ps qs r (node _ _ c) s = child-put_child c p _ s

next-ensure_segments :
    (p : Text) (ps : List Text) (n : RuleNode) (s : Text)
    → child (next_of (ensure_segments (p ∷ ps) n)) s ≡ (
        if p == s
        then some (ensure_segments ps (child_or_new (child (next_of n) p)))
        else child (next_of n) s)
unfolding ensure_segments
next-ensure_segments p ps (node _ _ c) s = child-put_child c p _ s

-- What a node says of itself.
abbrev own : Text → RuleNode → FilterRule
own version m = if counts version m then rule_of m else default

own-ensure_segments :
    (version : Text) (ps : List Text) (n : RuleNode)
    → own version (ensure_segments ps n) ≡ own version n
unfolding ensure_segments counts
own-ensure_segments version [] n = refl
own-ensure_segments version (p ∷ ps) (node r q c) = refl

own-set_rule :
    (version p : Text) (ps qs : List Text) (r : FilterRule) (n : RuleNode)
    → own version (set_rule (p ∷ ps) qs r n) ≡ own version n
unfolding set_rule counts
own-set_rule version p ps qs r (node _ _ _) = refl

deepest-new_rule : (version : Text) (q : List Text) → deepest version q (new_rule default) ≡ default
unfolding deepest child
deepest-new_rule version [] = refl
deepest-new_rule version (s ∷ q) = refl

deepest_missing :
    (version s : Text) (q : List Text) (n : RuleNode)
    → child (next_of n) s ≡ none
    → deepest version (s ∷ q) n ≡ default
unfolding deepest
deepest_missing version s q n missing = rw (missing, deepest) refl

deepest_there :
    (version s : Text) (q : List Text) (n m : RuleNode)
    → child (next_of n) s ≡ some m
    → deepest version (s ∷ q) n
      ≡ (if is_default (deepest version q m) then own version m else deepest version q m)
unfolding deepest
deepest_there version s q n m there = rw (there, deepest) refl

deepest-child_or_new :
    (version s : Text) (q : List Text) (n : RuleNode)
    → deepest version (s ∷ q) n ≡ (
        if is_default (deepest version q (child_or_new (child (next_of n) s)))
        then own version (child_or_new (child (next_of n) s))
        else deepest version q (child_or_new (child (next_of n) s)))
deepest-child_or_new version s q n = elim (Option-cases (child (next_of n) s)) [
  | inl missing ↦
      deepest_missing version s q n missing
      ∙ rw missing (rw deepest-new_rule (unfold counts in refl))
  | inr (m, there) ↦ deepest_there version s q n m there ∙ rw there refl
]

self_beq : (p : Text) → text_beq p p ≡ true
self_beq p = (text_beq_iff p p).1 refl

-- Making the nodes of a path changes no answer.
deepest-ensure_segments :
    (version : Text) (ps q : List Text) (n : RuleNode)
    → deepest version q (ensure_segments ps n) ≡ deepest version q n
deepest-ensure_segments version [] q n = unfold ensure_segments in refl
deepest-ensure_segments version (p ∷ ps) [] n = unfold deepest in refl
deepest-ensure_segments version (p ∷ ps) (s ∷ q) n = elim (Bool-cases (p == s)) [
  | inl same ↦ rw (← (text_beq_iff p s).0 same) (
      deepest-child_or_new version p q (ensure_segments (p ∷ ps) n)
      ∙ rw (next-ensure_segments, self_beq p)
          (rw (deepest-ensure_segments version ps q, own-ensure_segments)
            (sym (deepest-child_or_new version p q n))))
  | inr other ↦
      deepest-child_or_new version s q (ensure_segments (p ∷ ps) n)
      ∙ rw (next-ensure_segments, other) (sym (deepest-child_or_new version s q n))
]

-- A rule that is set on one path changes no answer for a path that does not begin with it.
deepest-set_rule_other :
    (version : Text) (ps qs : List Text) (r : FilterRule) (q : List Text) (n : RuleNode)
    → is_prefix ps q ≡ false
    → deepest version q (set_rule ps qs r n) ≡ deepest version q n
deepest-set_rule_other version [] qs r q n h = absurd (cc)
deepest-set_rule_other version (p ∷ ps) qs r [] n h = unfold deepest in refl
deepest-set_rule_other version (p ∷ []) qs r (s ∷ q) n h =
    let other : (p == s) ≡ false = ground arith in
    deepest-child_or_new version s q (set_rule (p ∷ []) qs r n)
    ∙ rw (next-set_rule, other) (sym (deepest-child_or_new version s q n))
deepest-set_rule_other version (p ∷ p' ∷ ps) qs r (s ∷ q) n h = elim (Bool-cases (p == s)) [
  | inl same ↦ rw (← (text_beq_iff p s).0 same) (
      deepest-child_or_new version p q (set_rule (p ∷ p' ∷ ps) qs r n)
      ∙ rw (next-set_rule, self_beq p)
          (rw
            (
              deepest-set_rule_other version (p' ∷ ps) qs r q (child_or_new (child (next_of n) p))
                  (rw same at h),
              own-set_rule,
            )
            (sym (deepest-child_or_new version p q n))))
  | inr other ↦
      deepest-child_or_new version s q (set_rule (p ∷ p' ∷ ps) qs r n)
      ∙ rw (next-set_rule, other) (sym (deepest-child_or_new version s q n))
]

own-set_rule_self :
    (version : Text) (qs : List Text) (r : FilterRule) (m : RuleNode)
    → counts version (node r qs leaf) ≡ true
    → own version (set_rule [] qs r m) ≡ r
unfolding set_rule counts
own-set_rule_self version qs r (node _ _ _) c = rw c refl

-- On the path itself the answer is the new rule, where it counts for the version.
deepest-set_rule_self :
    (version p : Text) (ps qs : List Text) (r : FilterRule) (n : RuleNode)
    → is_default r ≡ false
    → counts version (node r qs leaf) ≡ true
    → deepest version (p ∷ ps) (set_rule (p ∷ ps) qs r n) ≡ r
deepest-set_rule_self version p [] qs r n h c =
    deepest-child_or_new version p [] (set_rule (p ∷ []) qs r n)
    ∙ rw (next-set_rule, self_beq p) (unfold deepest in own-set_rule_self version qs r _ c)
deepest-set_rule_self version p (p' ∷ ps) qs r n h c =
    deepest-child_or_new version p (p' ∷ ps) (set_rule (p ∷ p' ∷ ps) qs r n)
    ∙ rw (next-set_rule, self_beq p)
        (rw (deepest-set_rule_self version p' ps qs r (child_or_new (child (next_of n) p)) h c, h)
          refl)

add_rule-deepest_self :
    (version p : Text) (ps qs : List Text) (r : FilterRule) (root : RuleNode)
    → is_default r ≡ false
    → counts version (node r qs leaf) ≡ true
    → deepest version (p ∷ ps) (add_rule (p ∷ ps) qs r root) ≡ r
unfolding add_rule
add_rule-deepest_self version p ps qs r root h c =
    deepest-set_rule_self version p ps qs r (ensure_segments (p ∷ ps) root) h c

add_rule-deepest_other :
    (version p : Text) (ps qs : List Text) (r : FilterRule) (root : RuleNode) (other : List Text)
    → is_prefix (p ∷ ps) other ≡ false
    → deepest version other (add_rule (p ∷ ps) qs r root) ≡ deepest version other root
unfolding add_rule
add_rule-deepest_other version p ps qs r root other h =
    deepest-set_rule_other version (p ∷ ps) qs r other (ensure_segments (p ∷ ps) root) h
    ∙ deepest-ensure_segments version (p ∷ ps) other root

rule_at-deepest :
    (root : RuleNode) (path : List Text) (version : Text)
    → rule_at root path version ≡ (
        if is_default (deepest version path root)
        then (if is_default (rule_of root) then include else rule_of root)
        else deepest version path root)
unfolding rule_at
rule_at-deepest root path version = ground (arith, last_rule-deepest version path root)

rule_of-add_rule :
    (p : Text) (ps qs : List Text) (r : FilterRule) (root : RuleNode)
    → rule_of (add_rule (p ∷ ps) qs r root) ≡ rule_of root
unfolding add_rule
rule_of-add_rule p ps qs r (node _ _ _) = refl

-- A rule that is not the default, added for a path below the root, is the answer for that path in the
-- tree with the rule, for every version for which its qualifiers count.
pub rule_at-add_rule_self :
    (root : RuleNode) (p : Text) (ps qs : List Text) (r : FilterRule) (version : Text)
    → r ≢ default
    → counts version (node r qs leaf) ≡ true
    → rule_at (add_rule (p ∷ ps) qs r root) (p ∷ ps) version ≡ r
rule_at-add_rule_self root p ps qs r version h c =
    let set : is_default r ≡ false = ground arith in
    rule_at-deepest (add_rule (p ∷ ps) qs r root) (p ∷ ps) version
    ∙ rw (add_rule-deepest_self version p ps qs r root set c, set) refl

-- Adding a rule for a path changes the answer for no path that does not begin with all of its
-- segments.
pub rule_at-add_rule_other :
    (root : RuleNode) (path qs : List Text) (r : FilterRule) (other : List Text) (version : Text)
    → is_prefix path other ≡ false
    → rule_at (add_rule path qs r root) other version ≡ rule_at root other version
rule_at-add_rule_other root [] qs r other version h = absurd (cc)
rule_at-add_rule_other root (p ∷ ps) qs r other version h =
    rule_at-deepest (add_rule (p ∷ ps) qs r root) other version
    ∙ rw (add_rule-deepest_other version p ps qs r root other h, rule_of-add_rule)
        (sym (rule_at-deepest root other version))
