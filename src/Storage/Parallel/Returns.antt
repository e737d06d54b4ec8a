-- ===== src/Storage/Parallel/Returns.antt =====
-- Upload and Delete return, also where the backend does not.
use athens.Prelude.{
  ◌≡◌, refl, ◌∙◌, ◌⊎◌, inl, inr, ◌+◌, Bool, true, Option, none, some, List, [], ◌∷◌, nat_eq,
  if◌then◌else◌, Text, length, length-append, is_empty, arith,
}
use athens.Errors.{GoError}
use athens.Storage.Parallel.{
  File, info_file, mod_file, zip_file, selecting, Worker, Pool, abort, receive, expires, aborts,
  receives, Reach, here, next, failures, returned, started,
}
use athens.Storage.Parallel.Counts.{Outer-cases, reports, Reach-AreCounted, AreCounted-started}

reports-cases : (w : Worker) → (w.outer ≡ selecting) ⊎ (reports w ≡ 1)
reports-cases w = elim (Outer-cases w.outer) [
  | inl free ↦ inl free
  | inr (inl fine) ↦ inr (rw fine refl)
  | inr (inr (e, failed)) ↦ inr (rw failed refl)
]

module _ {S : Type 0} where
  -- No goroutine of the backend made a step.
  abbrev pub AreStill : Pool S → Pool S → Type 0
  AreStill p q =
      (q.info_worker.inner ≡ p.info_worker.inner)
      × (q.mod_worker.inner ≡ p.mod_worker.inner)
      × (q.zip_worker.inner ≡ p.zip_worker.inner)

  AreStill-trans : (p q r : Pool S) → AreStill p q → AreStill q r → AreStill p r
  AreStill-trans p q r (a, b, c) (x, y, z) = (x ∙ a, y ∙ b, z ∙ c)

module _ {S : Type 0} (call : Bool → File → S → Option GoError × S) (reason : File → GoError) where
  Reach-trans :
      {p q r : Pool S} → Reach call reason p q → Reach call reason q r → Reach call reason p r
  Reach-trans first here = first
  Reach-trans first (next more step) = next (Reach-trans first more) step

  give_up_info :
      (p : Pool S)
      → p.expired ≡ true
      → (q : Pool S) × Reach call reason p q
        × AreStill p q
        × (q.expired ≡ true)
        × (reports q.info_worker ≡ 1)
  unfolding abort
  give_up_info p late = elim (reports-cases p.info_worker) [
    | inl free ↦ (
      abort info_file (reason info_file) p,
      next here (aborts info_file late free),
      (refl, refl, refl),
      late,
      refl,
    )
    | inr there ↦ (p, here, (refl, refl, refl), late, there)
  ]

  give_up_mod :
      (p : Pool S)
      → p.expired ≡ true
      → (q : Pool S) × Reach call reason p q
        × AreStill p q
        × (q.expired ≡ true)
        × (reports q.info_worker ≡ reports p.info_worker)
        × (reports q.mod_worker ≡ 1)
  unfolding abort
  give_up_mod p late = elim (reports-cases p.mod_worker) [
    | inl free ↦ (
      abort mod_file (reason mod_file) p,
      next here (aborts mod_file late free),
      (refl, refl, refl),
      late,
      refl,
      refl,
    )
    | inr there ↦ (p, here, (refl, refl, refl), late, refl, there)
  ]

  give_up_zip :
      (p : Pool S)
      → p.expired ≡ true
      → (q : Pool S) × Reach call reason p q
        × AreStill p q
        × (reports q.info_worker ≡ reports p.info_worker)
        × (reports q.mod_worker ≡ reports p.mod_worker)
        × (reports q.zip_worker ≡ 1)
  unfolding abort
  give_up_zip p late = elim (reports-cases p.zip_worker) [
    | inl free ↦ (
      abort zip_file (reason zip_file) p,
      next here (aborts zip_file late free),
      (refl, refl, refl),
      refl,
      refl,
      refl,
    )
    | inr there ↦ (p, here, (refl, refl, refl), refl, refl, there)
  ]

  receive_all :
      (chan : List (Option GoError)) (p : Pool S)
      → p.err_chan ≡ chan
      → length p.received + length chan ≡ 3
      → (q : Pool S) × Reach call reason p q × AreStill p q × (length q.received ≡ 3)
  unfolding receive
  receive_all [] p shape h = (p, here, (refl, refl, refl), omega arith)
  receive_all (result ∷ others) p shape h =
      let (q, more, still, three) =
        receive_all others (receive result others p) refl
          (omega (arith, length-append p.received (result ∷ []))) in
      (q, Reach-trans (next here (receives result others (omega arith) shape)) more, still, three)

  returned_three :
      (op : Text) (p : Pool S)
      → length p.received ≡ 3
      → (answer : Option (Text × List GoError)) × (returned op p ≡ some answer)
  unfolding returned
  returned_three op p three = (
    (if is_empty (failures p.received) then none else some (op, failures p.received)),
    rw (returned, three) refl,
  )

  -- From every state that Upload or Delete can reach, the timeout and steps of their own goroutines
  -- lead to a state in which the function has returned; on the way no call of the backend returns, and
  -- no result of one is taken.
  pub Reach_returned :
      (op : Text) (s : S) (p : Pool S)
      → Reach call reason (started s) p
      → (q : Pool S) × Reach call reason p q
        × AreStill p q
        × ((answer : Option (Text × List GoError)) × (returned op q ≡ some answer))
  Reach_returned op s p reached =
      let (a, to_a, still_a, late_a, i_a) = give_up_info (record p { expired = true }) refl in
      let (b, to_b, still_b, late_b, i_b, m_b) = give_up_mod a late_a in
      let (c, to_c, still_c, i_c, m_c, z_c) = give_up_zip b late_b in
      let to_all = Reach-trans (next here expires) (Reach-trans to_a (Reach-trans to_b to_c)) in
      let (count, failed, few) =
        Reach-AreCounted call reason (Reach-trans reached to_all) (AreCounted-started s) in
      let (q, to_q, still_q, three) = receive_all c.err_chan c refl (omega arith) in
      (
        q,
        Reach-trans to_all to_q,
        AreStill-trans p c q (AreStill-trans p b c (AreStill-trans p a b still_a still_b) still_c)
            still_q,
        returned_three op q three,
      )
