-- ===== src/Site/Debounce.antt =====
-- learn.js: debounce, which joins the resize events of a burst to one call, with the timers of the
-- browser that it starts and stops.
pub mod Burst
use athens.Prelude.{
  ℕ, suc, ◌-◌, Bool, true, false, Option, none, some, List, [], ◌∷◌, ◌==◌, nat_eq, if◌then◌else◌,
  leb,
}

-- `threshold || 100`
abbrev pub threshold_of : ℕ → ℕ
threshold_of threshold = if threshold == 0 then 100 else threshold

module _ {ℓ} (A : Type ℓ) where
  -- A timer of setTimeout: its id, the milliseconds that are left, and the arguments that its
  -- function `delayed` closes over.
  pub record Timer : Type ℓ where
    pub id : ℕ
    pub left : ℕ
    pub args : A

  -- `timeout`, the timers that run, the id of the next one, and the calls of func, last one first.
  pub record Debouncer : Type ℓ where
    pub timeout : Option ℕ
    pub timers : List Timer
    pub next_id : ℕ
    pub calls : List A

module _ {ℓ} {A : Type ℓ} where
  unfoldable pub clear_timeout : ℕ → List (Timer A) → List (Timer A)
  clear_timeout id [] = []
  clear_timeout id (t ∷ timers) =
      let rest = clear_timeout id timers in if t.id == id then rest else t ∷ rest

  abbrev pub apply_asap : Bool → A → List A → List A
  apply_asap true args calls = args ∷ calls
  apply_asap false args calls = calls

  abbrev pub apply_late : Bool → A → List A → List A
  apply_late true args calls = calls
  apply_late false args calls = args ∷ calls

  -- `debounced`
  unfoldable pub debounced : ℕ → Bool → A → Debouncer A → Debouncer A
  unfolding clear_timeout
  debounced threshold asap args d = record {
    timeout = some d.next_id;
    timers =
        record { id = d.next_id; left = threshold_of threshold; args = args }
        ∷ elim d.timeout [ none ↦ d.timers | some id ↦ clear_timeout id d.timers ];
    next_id = suc d.next_id;
    calls = elim d.timeout [ none ↦ apply_asap asap args d.calls | some id ↦ d.calls ];
  }

  -- `delayed`
  abbrev pub delayed : Bool → A → Debouncer A → Debouncer A
  delayed asap args d = record {
    timeout = none;
    timers = d.timers;
    next_id = d.next_id;
    calls = apply_late asap args d.calls;
  }

  -- The timers that are left after some milliseconds, and the arguments of those that ran out.
  unfoldable pub left_after : ℕ → List (Timer A) → List (Timer A)
  left_after ms [] = []
  left_after ms (t ∷ timers) =
      let rest = left_after ms timers in
      if leb t.left ms then rest else record { id = t.id; left = t.left - ms; args = t.args } ∷ rest

  unfoldable pub ran_out : ℕ → List (Timer A) → List A
  ran_out ms [] = []
  ran_out ms (t ∷ timers) =
      let rest = ran_out ms timers in if leb t.left ms then t.args ∷ rest else rest

  unfoldable pub delay_all : Bool → List A → Debouncer A → Debouncer A
  delay_all asap [] d = d
  delay_all asap (args ∷ more) d = delay_all asap more (delayed asap args d)

  unfoldable pub elapse : ℕ → Bool → Debouncer A → Debouncer A
  unfolding left_after ran_out delay_all
  elapse ms asap d = delay_all asap (ran_out ms d.timers) record {
    timeout = d.timeout;
    timers = left_after ms d.timers;
    next_id = d.next_id;
    calls = d.calls;
  }
