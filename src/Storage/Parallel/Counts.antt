-- ===== src/Storage/Parallel/Counts.antt =====
-- How many results there are, and which of them are failures.
use athens.Prelude.{
  ◌⊎◌, inl, inr, ◌≡◌, refl, ap, ◌∙◌, ℕ, ◌+◌, ◌≤◌, ◌<◌, Bool, Option, none, some, List, [], ◌∷◌,
  ◌++◌, nat_eq, length, length-append, arith,
}
use athens.Errors.{GoError}
use athens.Storage.Parallel.{
  File, info_file, mod_file, zip_file, Inner, sent, Outer, selecting, reported, Worker, Pool,
  worker, set_worker, call_returns, take_result, abort, receive, Step, expires, returns, takes,
  aborts, receives, Reach, here, next, failures, num_files, started,
}

abbrev pub reports : Worker → ℕ
reports w = elim w.outer [ selecting ↦ 0 | reported result ↦ 1 ]

abbrev pub errors_of : Option GoError → ℕ
errors_of none = 0
errors_of (some e) = 1

abbrev pub fails : Worker → ℕ
fails w = elim w.outer [ selecting ↦ 0 | reported result ↦ errors_of result ]

pub Outer-cases :
    (o : Outer)
    → (o ≡ selecting) ⊎ ((o ≡ reported none) ⊎ ((e : GoError) × (o ≡ reported (some e))))
Outer-cases selecting = inl refl
Outer-cases (reported none) = inr (inl refl)
Outer-cases (reported (some e)) = inr (inr (e, refl))

pub reports_most : (w : Worker) → reports w ≤ 1
reports_most w = elim (Outer-cases w.outer) [
  | inl free ↦ rw free (omega arith)
  | inr (inl fine) ↦ rw fine (omega arith)
  | inr (inr (e, failed)) ↦ rw failed (omega arith)
]

length-failures :
    (xs ys : List (Option GoError))
    → length (failures (xs ++ ys)) ≡ length (failures xs) + length (failures ys)
unfolding failures
length-failures [] ys = omega arith
length-failures (none ∷ xs) ys = length-failures xs ys
length-failures (some e ∷ xs) ys = omega (arith, length-failures xs ys)

length-failures_one :
    (result : Option GoError) (xs : List (Option GoError))
    → length (failures (result ∷ xs)) ≡ errors_of result + length (failures xs)
unfolding failures
length-failures_one none xs = omega arith
length-failures_one (some e) xs = omega arith

idle : (w : Worker) → w.outer ≡ selecting → (reports w ≡ 0) × (fails w ≡ 0)
idle w h = (rw h refl, rw h refl)

module _ {S : Type 0} where
  -- Each goroutine that reported has one result in the channel or received, and each failure is one of
  -- them; at most three are received.
  abbrev pub AreCounted : Pool S → Type 0
  AreCounted p =
      (length p.received + length p.err_chan
        ≡ reports p.info_worker + (reports p.mod_worker + reports p.zip_worker))
      × (length (failures p.received) + length (failures p.err_chan)
          ≡ fails p.info_worker + (fails p.mod_worker + fails p.zip_worker))
      × (length p.received ≤ 3)

  -- A goroutine writes its result to the channel.
  abbrev put : File → Inner → Option GoError → Pool S → Pool S
  put f inner result p = record (set_worker f record { inner = inner; outer = reported result } p) {
    err_chan = p.err_chan ++ result ∷ [];
  }

  one_more :
      (result : Option GoError) (p : Pool S)
      → (length (p.err_chan ++ result ∷ []) ≡ length p.err_chan + 1)
        × (length (failures (p.err_chan ++ result ∷ []))
            ≡ length (failures p.err_chan) + errors_of result)
  unfolding failures
  one_more result p = (
    length-append p.err_chan (result ∷ []),
    omega (arith, length-failures p.err_chan (result ∷ []), length-failures_one result []),
  )

  AreCounted-put :
      (f : File) (inner : Inner) (result : Option GoError) (p : Pool S)
      → (worker f p).outer ≡ selecting
      → AreCounted p
      → AreCounted (put f inner result p)
  AreCounted-put info_file inner result p h (a, b, c) =
      let (m, n) = one_more result p in
      let (x, y) = idle p.info_worker h in (omega (arith, m, x), omega (arith, n, y), c)
  AreCounted-put mod_file inner result p h (a, b, c) =
      let (m, n) = one_more result p in
      let (x, y) = idle p.mod_worker h in (omega (arith, m, x), omega (arith, n, y), c)
  AreCounted-put zip_file inner result p h (a, b, c) =
      let (m, n) = one_more result p in
      let (x, y) = idle p.zip_worker h in (omega (arith, m, x), omega (arith, n, y), c)

  AreCounted-returns :
      (f : File) (result : Option GoError) (store : S) (p : Pool S)
      → AreCounted p
      → AreCounted (call_returns f result store p)
  unfolding call_returns
  AreCounted-returns info_file result store p h = h
  AreCounted-returns mod_file result store p h = h
  AreCounted-returns zip_file result store p h = h

  AreCounted-receive :
      (result : Option GoError) (others : List (Option GoError)) (p : Pool S)
      → length p.received < 3
      → p.err_chan ≡ result ∷ others
      → AreCounted p
      → AreCounted (receive result others p)
  unfolding receive failures
  AreCounted-receive result others p few shape (a, b, c) =
      let n = ap length shape in
      let k = ap (λ xs. length (failures xs)) shape ∙ length-failures_one result others in
      (
        omega (arith, n, length-append p.received (result ∷ [])),
        omega (arith, k, length-failures p.received (result ∷ []), length-failures_one result []),
        omega (arith, length-append p.received (result ∷ [])),
      )

  module _ (call : Bool → File → S → Option GoError × S) (reason : File → GoError) where
    Step-AreCounted : {p q : Pool S} → Step call reason p q → AreCounted p → AreCounted q
    unfolding take_result abort
    Step-AreCounted expires h = h
    Step-AreCounted {p} (returns f busy) h =
        AreCounted-returns f (call p.expired f p.store).0 (call p.expired f p.store).1 p h
    Step-AreCounted {p} (takes f result offered free) h =
        AreCounted-put f (sent result) result p free h
    Step-AreCounted {p} (aborts f late free) h =
        AreCounted-put f (worker f p).inner (some (reason f)) p free h
    Step-AreCounted {p} (receives result others few shape) h =
        AreCounted-receive result others p few shape h

    -- The channel of the results never holds more than three with those received, so that no goroutine
    -- waits to write to it.
    pub Reach-AreCounted : {p q : Pool S} → Reach call reason p q → AreCounted p → AreCounted q
    Reach-AreCounted here h = h
    Reach-AreCounted (next reached step) h = Step-AreCounted step (Reach-AreCounted reached h)

pub AreCounted-started : {S : Type 0} (store : S) → AreCounted (started store)
unfolding failures
AreCounted-started store = (refl, refl, omega arith)

-- In every state that Upload or Delete can reach, the results in the channel and those received are
-- at most as many as the channel can hold, so that no goroutine waits to write its result, and no more
-- than there are files are received.
pub err_chan_fits :
    {S : Type 0} (call : Bool → File → S → Option GoError × S) (reason : File → GoError) (store : S)
    (p : Pool S)
    → Reach call reason (started store) p
    → (length p.received + length p.err_chan ≤ num_files) × (length p.received ≤ num_files)
err_chan_fits call reason store p reached =
    let (count, failed, few) = Reach-AreCounted call reason reached (AreCounted-started store) in
    (
      omega (
        arith,
        count,
        reports_most p.info_worker,
        reports_most p.mod_worker,
        reports_most p.zip_worker,
      ),
      few,
    )
