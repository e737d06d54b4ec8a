-- ===== src/Stash/Tests.antt =====
-- The theorems on the stashers at concrete inputs.
use athens.Prelude.{
  ◌≡◌, ◌↔◌, refl, ℕ, ◌+◌, Option, none, some, List, [], ◌∷◌, text_eq, true, false, nat_eq,
  if◌then◌else◌, Text, text, text_beq, inr, ◌⊎◌, contains, ltb, lookup, insert, delete,
}
use athens.Errors.{
  GoError, Result, ok, err, make_error, kind_arg, kind_not_found, kind_already_exists, kind,
}
use athens.Storage.{Backend, Version, exists}
use athens.Stash.{Target, Parts, Stasher, stash, index_failure}
use athens.Stash.Plain.{stash_ok_iff, IsKept, IsSaved}
use athens.Stash.Leases.{LeaseEvent, renews, stash_returns, receives, azblob_stash}
use athens.Stash.Leases.Success.{azblob_stash-ok}
use athens.Stash.Flight.{State, Reach, here, next, call, run, answer, start, subscribe, deliver}
use athens.Stash.Flight.Invariant.{IsSound, Reach-IsSound}
use athens.Stash.Flight.Counts.{answers}
use athens.Stash.Flight.Progress.{Reach_answers}

abbrev absent : GoError
absent = make_error (text "s") (kind_arg kind_not_found ∷ [])

abbrev twice : GoError
twice = make_error (text "i") (kind_arg kind_already_exists ∷ [])

abbrev storage : Backend (List Text)
storage = record {
  list = λ s m. ok s;
  info = λ s m v. if contains s v then ok v else err absent;
  go_mod = λ s m v. err absent;
  zip = λ s m v. err absent;
  save = λ s m v. (none, v.semver ∷ s);
  own_exists = some (λ s m v. ok (contains s v));
}

abbrev fetched : Version
fetched = record { go_mod = []; zip = []; info = []; semver = text "v1.0.0" }

-- Every version resolves to v1.0.0, and the index has it already.
abbrev parts : Parts (List Text) (List Text)
parts = record { fetch = λ m v. ok fetched; storage = storage; index = λ i m v. (some twice, i) }

abbrev empty : Target (List Text) (List Text)
empty = record { store = []; lines = [] }

abbrev full : Target (List Text) (List Text)
full = record { store = text "v1.0.0" ∷ []; lines = [] }

stash_ok_iff_example :
    (stash parts empty (text "m") (text "master") ≡ (ok (text "v1.0.0"), full)) ↔ (
      (v : Version) × (parts.fetch (text "m") (text "master") ≡ ok v)
      × (text "v1.0.0" ≡ v.semver)
      × (IsKept parts empty (text "m") (text "master") v full
          ⊎ IsSaved parts empty (text "m") (text "master") v full))
stash_ok_iff_example = stash_ok_iff parts empty (text "m") (text "master") (text "v1.0.0") full

stash_saved_test : stash parts empty (text "m") (text "master") ≡ (ok (text "v1.0.0"), full)
unfolding exists contains index_failure kind make_error
stash_saved_test =
    (stash_ok_iff parts empty (text "m") (text "master") (text "v1.0.0") full).1
      (fetched, refl, refl, inr (inr refl, refl, refl, refl))

abbrev work : ℕ → Text → Text → Result Text × ℕ
work n m v = (ok v, n + 1)

-- Two callers of one version, and the one stash that answers both.
abbrev first_call : State ℕ
first_call = record {
  subs = (text "m@v", 0 ∷ []) ∷ [];
  next = 1;
  processes = record { mod_path = text "m"; ver = text "v"; response = none } ∷ [];
  sent = [];
  target = 0;
}

abbrev second_call : State ℕ
second_call = record first_call { subs = (text "m@v", 0 ∷ 1 ∷ []) ∷ []; next = 2 }

abbrev stashed : State ℕ
stashed = record second_call {
  processes = record { mod_path = text "m"; ver = text "v"; response = some (ok (text "v")) } ∷ [];
  target = 1;
}

abbrev answered : State ℕ
answered = record {
  subs = [];
  next = 2;
  processes = [];
  sent = (0, ok (text "v")) ∷ (1, ok (text "v")) ∷ [];
  target = 1;
}

shared_flight : Reach work (start 0) answered
unfolding subscribe deliver lookup insert delete text_beq
shared_flight =
    next
      (next (next (next here (call (text "m") (text "v"))) (call (text "m") (text "v")))
        (run [] [] (record { mod_path = text "m"; ver = text "v"; response = none }) refl refl))
      (answer [] []
        (record { mod_path = text "m"; ver = text "v"; response = some (ok (text "v")) })
        (ok (text "v")) refl refl)

Reach-IsSound_example : IsSound answered
Reach-IsSound_example = Reach-IsSound shared_flight

two_callers : Reach work (start 0) second_call
unfolding subscribe lookup insert text_beq
two_callers = next (next here (call (text "m") (text "v"))) (call (text "m") (text "v"))

Reach_answers_example :
    (u : State ℕ) × Reach work second_call u
    × (u.processes ≡ [])
    × ((chan : ℕ) → answers chan u.sent ≡ (if ltb chan second_call.next then 1 else 0))
Reach_answers_example = Reach_answers two_callers

-- A stash that outlasts one renewal of its lease.
abbrev saving : Stasher (List Text) (List Text)
saving t m v = (ok v, full)

abbrev renewed_once : List LeaseEvent
renewed_once = renews none ∷ stash_returns ∷ receives ∷ []

azblob_stash-ok_example :
    ((id : Text) × (some (ok (text "id")) ≡ some (ok id)))
    × Path (Option GoError) none none
    × (((exists storage [] (text "m") (text "v1.0.0") ≡ ok true)
          × (text "v1.0.0" ≡ text "v1.0.0")
          × (full ≡ empty))
        ⊎ ((exists storage [] (text "m") (text "v1.0.0") ≡ ok false)
            × (saving empty (text "m") (text "v1.0.0") ≡ (ok (text "v1.0.0"), full))))
unfolding azblob_stash exists contains
azblob_stash-ok_example =
    azblob_stash-ok saving (some (ok (text "id"))) none storage renewed_once empty full (text "m")
      (text "v1.0.0") (text "v1.0.0") refl
