-- ===== src/Site/Debounce/Burst.antt =====
-- A burst of events is one call.
use athens.Prelude.{
  ℕ, suc, ◌-◌, ◌<◌, ◌≤◌, ◌≡◌, refl, ap, if◌then◌else◌, ◌∙◌, Bool, true, false, none, some, List, [],
  ◌∷◌, arith,
}
use athens.Site.Debounce.{
  Debouncer, threshold_of, apply_asap, apply_late, debounced, elapse, clear_timeout, left_after,
  ran_out, delay_all,
}

module _ {ℓ} {A : Type ℓ} where
  -- No timer runs; and one timer runs, the one that `timeout` names.
  abbrev pub idle : ℕ → List A → Debouncer A
  idle next calls = record { timeout = none; timers = []; next_id = next; calls = calls }

  abbrev armed : ℕ → ℕ → ℕ → A → List A → Debouncer A
  armed id left next args calls = record {
    timeout = some id;
    timers = record { id = id; left = left; args = args } ∷ [];
    next_id = next;
    calls = calls;
  }

  debounced-armed :
      (threshold : ℕ) (asap : Bool) (id left next : ℕ) (args new : A) (calls : List A)
      → debounced threshold asap new (armed id left next args calls)
        ≡ armed next (threshold_of threshold) (suc next) new calls
  unfolding debounced clear_timeout
  debounced-armed threshold asap id left next args new calls = ground arith

  elapse-armed :
      (ms : ℕ) (asap : Bool) (id left next : ℕ) (args : A) (calls : List A)
      → ms < left
      → elapse ms asap (armed id left next args calls) ≡ armed id (left - ms) next args calls
  unfolding elapse left_after ran_out delay_all
  elapse-armed ms asap id left next args calls h = ground arith

  -- Events, each with the milliseconds until the next one.
  unfoldable pub burst : ℕ → Bool → List (A × ℕ) → Debouncer A → Debouncer A
  burst threshold asap [] d = d
  burst threshold asap ((args, ms) ∷ events) d =
      burst threshold asap events (elapse ms asap (debounced threshold asap args d))

  -- The last event of a burst, and quiet for the threshold.
  unfoldable pub settle : ℕ → Bool → A → Debouncer A → Debouncer A
  settle threshold asap args d =
      elapse (threshold_of threshold) asap (debounced threshold asap args d)

  elapse-armed_out :
      (ms : ℕ) (asap : Bool) (id left next : ℕ) (args : A) (calls : List A)
      → left ≤ ms
      → elapse ms asap (armed id left next args calls) ≡ idle next (apply_late asap args calls)
  unfolding elapse left_after ran_out delay_all
  elapse-armed_out ms asap id left next args calls h = ground arith

  -- Each event comes before the threshold of the one before.
  abbrev pub IsDense : ℕ → List (A × ℕ) → Type 0
  IsDense threshold [] = Unit
  IsDense threshold ((args, ms) ∷ events) = (ms < threshold_of threshold) × IsDense threshold events

  settle-burst-armed :
      (threshold : ℕ) (asap : Bool) (events : List (A × ℕ)) (id left next : ℕ) (args new : A)
      (calls : List A)
      → IsDense threshold events
      → (settle threshold asap new
          (burst threshold asap events (armed id left next args calls))).calls
        ≡ apply_late asap new calls
  unfolding settle burst
  settle-burst-armed threshold asap [] id left next args new calls h =
      rw (debounced-armed threshold asap id left next args new calls) (
        ap (λ d. d.calls)
          (elapse-armed_out (threshold_of threshold) asap next (threshold_of threshold) (suc next)
            new calls (omega arith)))
  settle-burst-armed threshold asap ((a, ms) ∷ events) id left next args new calls (h, dense) =
      rw
        (
          debounced-armed threshold asap id left next args a calls,
          elapse-armed ms asap next (threshold_of threshold) (suc next) a calls h,
        )
        (settle-burst-armed threshold asap events next (threshold_of threshold - ms) (suc next) a
          new calls dense)

  debounced-idle :
      (threshold : ℕ) (asap : Bool) (next : ℕ) (new : A) (calls : List A)
      → debounced threshold asap new (idle next calls)
        ≡ armed next (threshold_of threshold) (suc next) new (apply_asap asap new calls)
  unfolding debounced
  debounced-idle threshold asap next new calls = refl

  apply_late-apply_asap :
      (asap : Bool) (first new : A) (calls : List A)
      → apply_late asap new (apply_asap asap first calls) ≡ (if asap then first else new) ∷ calls
  apply_late-apply_asap true first new calls = refl
  apply_late-apply_asap false first new calls = refl

  -- The first of the events of a burst and its last one.
  abbrev pub first_of : List (A × ℕ) → A → A
  first_of [] new = new
  first_of ((args, ms) ∷ events) new = args

  -- A burst of events, each before the threshold of the one before, and quiet for the threshold at
  -- its end, from a state in which no timer runs: the function is called once, with the arguments of
  -- the last event, or with execAsap of the first one.
  pub settle-burst :
      (threshold : ℕ) (asap : Bool) (events : List (A × ℕ)) (next : ℕ) (new : A) (calls : List A)
      → IsDense threshold events
      → (settle threshold asap new (burst threshold asap events (idle next calls))).calls
        ≡ (if asap then first_of events new else new) ∷ calls
  unfolding settle burst
  settle-burst threshold asap [] next new calls h =
      rw (debounced-idle threshold asap next new calls) (
        ap (λ d. d.calls)
          (elapse-armed_out (threshold_of threshold) asap next (threshold_of threshold) (suc next)
            new (apply_asap asap new calls) (omega arith))
        ∙ apply_late-apply_asap asap new new calls)
  settle-burst threshold asap ((args, ms) ∷ events) next new calls (h, dense) =
      rw
        (
          debounced-idle threshold asap next args calls,
          elapse-armed ms asap next (threshold_of threshold) (suc next) args
              (apply_asap asap args calls) h,
        )
        (settle-burst-armed threshold asap events next (threshold_of threshold - ms) (suc next) args
            new (apply_asap asap args calls) dense
          ∙ apply_late-apply_asap asap args new calls)
