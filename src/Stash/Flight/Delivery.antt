-- ===== src/Stash/Flight/Delivery.antt =====
-- The channels of the single flight, counted over all keys: those that were sent a response and those
-- that wait.
use athens.Prelude.{
  ◌≡◌, refl, ◌∙◌, ℕ, ◌+◌, List, [], ◌∷◌, ◌++◌, text_eq, nat_eq, if◌then◌else◌, ltb, Text, lookup,
  contains, IsDistinct, arith, Option-cases, inl, inr,
}
use athens.Errors.{Result}
use athens.Stash.{fmt_mod_ver}
use athens.Stash.Flight.{
  Process, key, State, subscribe, waiting, deliver, Step, call, run, answer, Reach, here, next,
  start,
}
use athens.Stash.Flight.Invariant.{Reach-IsSound}
use athens.Stash.Flight.Counts.{
  names, answers, answers-append, answers-map, times-append, total, insert-IsDistinct,
  delete-IsDistinct, total-insert, total-delete, held-waiting, total_idle, made, made_next,
}

record IsCounted {T : Type 0} (st : State T) : Type 0 where
  distinct : IsDistinct (names st.subs)
  balance : (chan : ℕ) → answers chan st.sent + total chan st.subs ≡ made chan st.next

module _ {T : Type 0} (st : State T) (h : IsCounted st) where
  subscribe-IsCounted : (mod_path ver : Text) → IsCounted (subscribe st mod_path ver)
  unfolding subscribe
  subscribe-IsCounted mod_path ver =
      let mv = fmt_mod_ver mod_path ver in
      elim (Option-cases (lookup st.subs mv)) [
        | inl idle ↦
            rw (idle, subscribe)
              (record {
                distinct = insert-IsDistinct st.subs mv (st.next ∷ []) h.distinct;
                balance = λ chan. ground (
                  arith,
                  h.balance chan,
                  total-insert chan st.subs mv (st.next ∷ []),
                  made_next chan st.next,
                );
              })
        | inr (chans, busy) ↦
            rw (busy, subscribe)
              (record {
                distinct = insert-IsDistinct st.subs mv (chans ++ st.next ∷ []) h.distinct;
                balance = λ chan. ground (
                  arith,
                  h.balance chan,
                  total-insert chan st.subs mv (chans ++ st.next ∷ []),
                  times-append chan chans (st.next ∷ []),
                  made_next chan st.next,
                );
              })
      ]

  deliver-IsCounted :
      (p : Process) (others : List Process) (r : Result Text) → IsCounted (deliver st p others r)
  unfolding deliver
  deliver-IsCounted p others r = record {
    distinct = delete-IsDistinct st.subs (key p) h.distinct;
    balance = λ chan.
        rw (answers-append, answers-map chan r (waiting st (key p)))
          (ground (
            arith,
            h.balance chan,
            total-delete chan st.subs (key p) h.distinct,
            held-waiting chan st (key p),
          ));
  }

module _ {T : Type 0} {inner : T → Text → Text → Result Text × T} where
  Step-IsCounted : {st u : State T} → Step inner st u → IsCounted st → IsCounted u
  Step-IsCounted {st} (call mod_path ver) h = subscribe-IsCounted st h mod_path ver
  Step-IsCounted {st} (run before after p e idle) h = record {
    distinct = h.distinct;
    balance = h.balance;
  }
  Step-IsCounted {st} (answer before after p r e done) h = deliver-IsCounted st h p _ r

  Reach-IsCounted : {target : T} {st : State T} → Reach inner (start target) st → IsCounted st
  Reach-IsCounted here = record { distinct = tt; balance = λ chan. ground arith }
  Reach-IsCounted (next r s) = Step-IsCounted s (Reach-IsCounted r)

  -- Where no goroutine is in flight any more, each channel that was made was sent one response, and no
  -- other channel was sent any.
  pub Reach_all_answered :
      {target : T} {st : State T}
      → Reach inner (start target) st
      → st.processes ≡ []
      → (chan : ℕ) → answers chan st.sent ≡ (if ltb chan st.next then 1 else 0)
  unfolding contains
  Reach_all_answered {st} r quiet chan =
      let none_waits : total chan st.subs ≡ 0 =
        total_idle chan st.subs (λ mv. (Reach-IsSound r).answered mv ∙ (rw quiet refl)) in
      omega (arith, (Reach-IsCounted r).balance chan)
