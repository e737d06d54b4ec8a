-- ===== src/Stash/Flight.antt =====
-- with_singleflight.go: callers of one module@version share one stash. The mutex makes the bodies
-- of `Stash` (up to the wait) and of `process` (from the lock on) atomic, so they are the steps of a
-- state machine; the stash itself runs between the two, with no lock held.
pub mod Invariant
pub mod Counts
pub mod Delivery
pub mod Progress
use athens.Prelude.{
  ◌≡◌, refl, ℕ, ◌+◌, Bool, true, false, Option, none, some, List, [], ◌∷◌, ◌++◌, ◌==◌, text_eq,
  if◌then◌else◌, Text, lookup, insert, delete,
}
use mathlib.Core.List.{map}
use athens.Errors.{Result}
use athens.Stash.{Target, Stasher, fmt_mod_ver}

-- A goroutine `process`: its module and version, and the response once its stash is done.
pub record Process : Type 0 where
  pub mod_path : Text
  pub ver : Text
  pub response : Option (Result Text)

abbrev pub key : Process → Text
key p = fmt_mod_ver p.mod_path p.ver

-- The struct `withsf`, with what it shares: the channels are numbered in the order in which they
-- are made, `sent` holds the response that each was sent, and T is what the stasher works on.
pub record State (T : Type 0) : Type 0 where
  pub subs : List (Text × List ℕ)
  pub next : ℕ
  pub processes : List Process
  pub sent : List (ℕ × Result Text)
  pub target : T

module _ {T : Type 0} where
  -- `Stash` up to `<-subCh`; the caller waits on the channel `st.next`.
  unfoldable pub subscribe : State T → Text → Text → State T
  subscribe st mod_path ver =
      let mv = fmt_mod_ver mod_path ver in
      elim (lookup st.subs mv) [
        | none ↦ record st {
          subs = insert st.subs mv (st.next ∷ []);
          next = st.next + 1;
          processes =
              st.processes ++ record { mod_path = mod_path; ver = ver; response = none } ∷ [];
        }
        | some chans ↦ record st {
          subs = insert st.subs mv (chans ++ st.next ∷ []);
          next = st.next + 1;
        }
      ]

  -- The channels that wait for a key: `s.subs[mv]`, nil where there is none.
  unfoldable pub waiting : State T → Text → List ℕ
  waiting st mv = elim (lookup st.subs mv) [ none ↦ [] | some chans ↦ chans ]

  -- The locked part of `process`: the response goes to every channel, and the key is deleted.
  unfoldable pub deliver : State T → Process → List Process → Result Text → State T
  unfolding waiting
  deliver st p others r = record st {
    subs = delete st.subs (key p);
    processes = others;
    sent = st.sent ++ map (λ chan. (chan, r)) (waiting st (key p));
  }

  -- One step of the callers and goroutines.
  pub data Step (inner : T → Text → Text → Result Text × T) : State T → State T → Type 0 where
    call : {st : State T} (mod_path ver : Text) → Step inner st (subscribe st mod_path ver)
    run :
        {st : State T} (before after : List Process) (p : Process)
        → st.processes ≡ before ++ p ∷ after
        → p.response ≡ none
        → Step inner st (record st {
          processes =
              before ++ record p { response = some (inner st.target p.mod_path p.ver).0 } ∷ after;
          target = (inner st.target p.mod_path p.ver).1;
        })
    answer :
        {st : State T} (before after : List Process) (p : Process) (r : Result Text)
        → st.processes ≡ before ++ p ∷ after
        → p.response ≡ some r
        → Step inner st (deliver st p (before ++ after) r)

  pub data Reach (inner : T → Text → Text → Result Text × T) (st : State T) : State T → Type 0 where
    here : Reach inner st st
    next : {t u : State T} → Reach inner st t → Step inner t u → Reach inner st u

abbrev pub start : {T : Type 0} → T → State T
start target = record { subs = []; next = 0; processes = []; sent = []; target = target }
