-- ===== src/Filter/Qualifiers/Order.antt =====
-- The modifiers as orders on versions.
use athens.Prelude.{ℕ, ◌≤◌, ◌<◌, ◌≡◌, ◌↔◌, ◌⊎◌, true, arith, nat_eq}
use athens.Filter.Qualifiers.{matches_tilde, matches_caret, matches_less}

-- The order of versions by major, minor and patch number.
abbrev pub AtMost : ℕ → ℕ → ℕ → ℕ → ℕ → ℕ → Type 0
AtMost v0 v1 v2 q0 q1 q2 = (v0 < q0) ⊎ ((v0 ≡ q0) × ((v1 < q1) ⊎ ((v1 ≡ q1) × (v2 ≤ q2))))

-- The modifier `<` accepts the versions up to the qualifier and the qualifier itself, not only the
-- lower ones.
matches_less_iff :
    (v0 v1 v2 q0 q1 q2 : ℕ) → (matches_less v0 v1 v2 q0 q1 q2 ≡ true) ↔ AtMost v0 v1 v2 q0 q1 q2
unfolding matches_less
matches_less_iff v0 v1 v2 q0 q1 q2 = ground arith

-- The modifier `^` accepts the versions of the same major number that are not below the qualifier,
-- and `~` those of the same minor number besides.
pub matches_caret_tilde_iff :
    (v0 v1 v2 q0 q1 q2 : ℕ)
    → ((matches_caret v0 v1 v2 q0 q1 q2 ≡ true) ↔ ((v0 ≡ q0) × AtMost q0 q1 q2 v0 v1 v2))
      × ((matches_tilde v0 v1 v2 q0 q1 q2 ≡ true)
          ↔ ((v0 ≡ q0) × (v1 ≡ q1) × AtMost q0 q1 q2 v0 v1 v2))
unfolding matches_caret matches_tilde
matches_caret_tilde_iff v0 v1 v2 q0 q1 q2 = ground arith
