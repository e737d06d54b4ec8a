-- ===== src/Storage/Parallel/Saved.antt =====
-- What is done when Upload or Delete returns nil.
use athens.Prelude.{
  ◌≡◌, ◌≢◌, refl, inl, inr, Bool, true, Option, none, some, List, [], ◌∷◌, ◌==◌, nat_eq,
  nat_beq_iff, Text, length, is_empty, arith, Bool-cases,
}
use athens.Errors.{GoError}
use athens.Storage.Parallel.{
  File, info_file, mod_file, zip_file, calling, offering, sent, reported, Worker, Pool,
  call_returns, take_result, abort, receive, Step, expires, returns, takes, aborts, receives, Reach,
  here, next, failures, returned, started,
}
use athens.Storage.Parallel.Counts.{
  Outer-cases, reports_most, reports, fails, AreCounted, Reach-AreCounted, AreCounted-started,
}

by_file : (P : File → Type 0) → P info_file → P mod_file → P zip_file → (f : File) → P f
by_file P i m z info_file = i
by_file P i m z mod_file = m
by_file P i m z zip_file = z

reported_none : (w : Worker) → reports w ≡ 1 → fails w ≡ 0 → w.outer ≡ reported none
reported_none w h k = elim (Outer-cases w.outer) [
  | inl free ↦ absurd (omega (arith, rw free at h))
  | inr (inl fine) ↦ fine
  | inr (inr (e, failed)) ↦ absurd (omega (arith, rw failed at k))
]

is_empty-length : (es : List GoError) → is_empty es ≡ true → length es ≡ 0
is_empty-length [] h = refl
is_empty-length (e ∷ es) h = absurd (cc)

no_failures : (xs : List (Option GoError)) → length xs ≡ 0 → length (failures xs) ≡ 0
unfolding failures
no_failures [] h = refl
no_failures (x ∷ xs) h = absurd (omega arith)

returned_nil :
    {S : Type 0} (op : Text) (p : Pool S)
    → returned op p ≡ some none
    → (length p.received ≡ 3) × (length (failures p.received) ≡ 0)
unfolding returned
returned_nil op p nil = elim (Bool-cases (length p.received == 3)) [
  | inr more ↦ absurd (cc (rw (returned, more) at nil))
  | inl all ↦ elim (Bool-cases (is_empty (failures p.received))) [
    | inl clean ↦
        ((nat_beq_iff (length p.received) 3).0 all, is_empty-length (failures p.received) clean)
    | inr bad ↦ absurd (cc (rw (returned, all, bad) at nil))
  ]
]

-- Where three results without a failure were received, each goroutine reported nil.
pub all_reported :
    {S : Type 0} (op : Text) (p : Pool S)
    → AreCounted p
    → returned op p ≡ some none
    → (p.info_worker.outer ≡ reported none)
      × (p.mod_worker.outer ≡ reported none)
      × (p.zip_worker.outer ≡ reported none)
all_reported op p (a, b, c) nil =
    let (three, none_failed) = returned_nil op p nil in
    let i = reports_most p.info_worker in
    let m = reports_most p.mod_worker in
    let z = reports_most p.zip_worker in
    let empty = no_failures p.err_chan (omega arith) in
    (
      reported_none p.info_worker (omega arith) (omega arith),
      reported_none p.mod_worker (omega arith) (omega arith),
      reported_none p.zip_worker (omega arith) (omega arith),
    )

-- A call that returned nil has done its file, and no call of another file undoes it.
module _ {S : Type 0} (call : Bool → File → S → Option GoError × S) (reason : File → GoError)
    (Done : File → S → Type 0)
    (does : (expired : Bool) (f : File) (s : S)
      → (call expired f s).0 ≡ none
      → Done f (call expired f s).1)
    (keeps : (expired : Bool) (f g : File) (s : S)
      → f ≢ g
      → Done f s
      → Done f (call expired g s).1) where
  IsSound : File → S → Worker → Type 0
  IsSound f s w =
      (w.inner ≡ offering none → Done f s)
      × (w.inner ≡ sent none → Done f s)
      × (w.outer ≡ reported none → w.inner ≡ sent none)

  AreSound : Pool S → Type 0
  AreSound p =
      IsSound info_file p.store p.info_worker
      × IsSound mod_file p.store p.mod_worker
      × IsSound zip_file p.store p.zip_worker

  IsSound-called :
      (expired : Bool) (f : File) (s : S) (w : Worker)
      → w.inner ≡ calling
      → IsSound f s w
      → IsSound f
          (call expired f s).1
          record { inner = offering (call expired f s).0; outer = w.outer }
  unfolding IsSound
  IsSound-called expired f s w busy (a, b, c) =
      (λ o. does expired f s cc, λ o. absurd (cc), λ o. absurd (cc (c o, busy)))

  IsSound-other :
      (expired : Bool) (f g : File) (s : S) (w : Worker)
      → f ≢ g
      → IsSound f s w
      → IsSound f (call expired g s).1 w
  unfolding IsSound
  IsSound-other expired f g s w differ (a, b, c) =
      (λ o. keeps expired f g s differ (a o), λ o. keeps expired f g s differ (b o), c)

  IsSound-takes :
      (f : File) (s : S) (w : Worker) (result : Option GoError)
      → w.inner ≡ offering result
      → IsSound f s w
      → IsSound f s record { inner = sent result; outer = reported result }
  unfolding IsSound
  IsSound-takes f s w result offered (a, b, c) =
      (λ o. absurd (cc), λ o. a (cc (offered, o)), λ o. cc o)

  IsSound-aborts :
      (f : File) (s : S) (w : Worker)
      → IsSound f s w
      → IsSound f s record { inner = w.inner; outer = reported (some (reason f)) }
  unfolding IsSound
  IsSound-aborts f s w (a, b, c) = (a, b, λ o. absurd (cc))

  Step-AreSound : {p q : Pool S} → Step call reason p q → AreSound p → AreSound q
  unfolding AreSound call_returns take_result abort receive
  Step-AreSound expires h = h
  Step-AreSound {p} (returns info_file busy) (i, m, z) = (
    IsSound-called p.expired info_file p.store p.info_worker busy i,
    IsSound-other p.expired mod_file info_file p.store p.mod_worker (λ e. absurd (cc)) m,
    IsSound-other p.expired zip_file info_file p.store p.zip_worker (λ e. absurd (cc)) z,
  )
  Step-AreSound {p} (returns mod_file busy) (i, m, z) = (
    IsSound-other p.expired info_file mod_file p.store p.info_worker (λ e. absurd (cc)) i,
    IsSound-called p.expired mod_file p.store p.mod_worker busy m,
    IsSound-other p.expired zip_file mod_file p.store p.zip_worker (λ e. absurd (cc)) z,
  )
  Step-AreSound {p} (returns zip_file busy) (i, m, z) = (
    IsSound-other p.expired info_file zip_file p.store p.info_worker (λ e. absurd (cc)) i,
    IsSound-other p.expired mod_file zip_file p.store p.mod_worker (λ e. absurd (cc)) m,
    IsSound-called p.expired zip_file p.store p.zip_worker busy z,
  )
  Step-AreSound {p} (takes info_file result offered free) (i, m, z) =
      (IsSound-takes info_file p.store p.info_worker result offered i, m, z)
  Step-AreSound {p} (takes mod_file result offered free) (i, m, z) =
      (i, IsSound-takes mod_file p.store p.mod_worker result offered m, z)
  Step-AreSound {p} (takes zip_file result offered free) (i, m, z) =
      (i, m, IsSound-takes zip_file p.store p.zip_worker result offered z)
  Step-AreSound {p} (aborts info_file late free) (i, m, z) =
      (IsSound-aborts info_file p.store p.info_worker i, m, z)
  Step-AreSound {p} (aborts mod_file late free) (i, m, z) =
      (i, IsSound-aborts mod_file p.store p.mod_worker m, z)
  Step-AreSound {p} (aborts zip_file late free) (i, m, z) =
      (i, m, IsSound-aborts zip_file p.store p.zip_worker z)
  Step-AreSound (receives result others few shape) h = h

  Reach-AreSound : {p q : Pool S} → Reach call reason p q → AreSound p → AreSound q
  Reach-AreSound here h = h
  Reach-AreSound (next reached step) h = Step-AreSound step (Reach-AreSound reached h)

  AreSound-started : (s : S) → AreSound (started s)
  unfolding AreSound IsSound
  AreSound-started s = (
    (λ o. absurd (cc), λ o. absurd (cc), λ o. absurd (cc)),
    (λ o. absurd (cc), λ o. absurd (cc), λ o. absurd (cc)),
    (λ o. absurd (cc), λ o. absurd (cc), λ o. absurd (cc)),
  )

  -- A run that ends with nil has done all three files.
  pub returned_done :
      (op : Text) (s : S) (p : Pool S)
      → Reach call reason (started s) p
      → returned op p ≡ some none
      → (f : File) → Done f p.store
  unfolding returned AreSound IsSound
  returned_done op s p reached nil =
      let ((a, b, c), (d, e, f), (g, h, i)) = Reach-AreSound reached (AreSound-started s) in
      let (info, mod_, zip) =
        all_reported op p (Reach-AreCounted call reason reached (AreCounted-started s)) nil in
      by_file (λ file. Done file p.store) (b (c info)) (e (f mod_)) (h (i zip))
