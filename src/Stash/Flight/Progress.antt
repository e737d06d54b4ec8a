-- ===== src/Stash/Flight/Progress.antt =====
-- How the stashes in flight are brought to an end.
use athens.Prelude.{
  ◌≡◌, refl, ap, ◌∙◌, ℕ, ltb, if◌then◌else◌, some, List, [], ◌∷◌, Text, Option-cases, inl, inr,
}
use athens.Errors.{Result}
use athens.Stash.Flight.{Process, State, deliver, Step, run, answer, Reach, here, next, start}
use athens.Stash.Flight.Counts.{answers}
use athens.Stash.Flight.Delivery.{Reach_all_answered}

module _ {T : Type 0} {inner : T → Text → Text → Result Text × T} where
  before_next : {st t u : State T} → Step inner st t → Reach inner t u → Reach inner st u
  before_next s here = next here s
  before_next s (next r s') = next (before_next s r) s'

  Reach-concat : {st t u : State T} → Reach inner st t → Reach inner t u → Reach inner st u
  Reach-concat r here = r
  Reach-concat r (next r' s) = next (Reach-concat r r') s

  finish_all :
      (ps : List Process) (st : State T)
      → st.processes ≡ ps
      → (u : State T) × Reach inner st u × (u.processes ≡ []) × (u.next ≡ st.next)
  unfolding deliver
  finish_all [] st e = (st, here, e, refl)
  finish_all (p ∷ ps) st e = elim (Option-cases p.response) [
    | inr (r, done) ↦
        let (u, reach, quiet, same) = finish_all ps (deliver st p ps r) refl in
        (u, before_next (answer [] ps p r e done) reach, quiet, same)
    | inl idle ↦
        let r : Result Text = (inner st.target p.mod_path p.ver).0 in
        let q : Process = record p { response = some r } in
        let ran : State T = record st {
          processes = q ∷ ps;
          target = (inner st.target p.mod_path p.ver).1;
        } in
        let (u, reach, quiet, same) = finish_all ps (deliver ran q ps r) refl in
        (
          u,
          before_next (run [] ps p e idle) (before_next (answer [] ps q r refl refl) reach),
          quiet,
          same,
        )
  ]

  -- From every reachable state, further steps lead to a state in which no stash is in flight and each
  -- channel that a call had made before those steps was sent exactly one response, and no other channel
  -- any.
  pub Reach_answers :
      {target : T} {st : State T}
      → Reach inner (start target) st
      → (u : State T) × Reach inner st u
        × (u.processes ≡ [])
        × ((chan : ℕ) → answers chan u.sent ≡ (if ltb chan st.next then 1 else 0))
  Reach_answers {st} r =
      let (u, reach, quiet, same) = finish_all st.processes st refl in
      (
        u,
        reach,
        quiet,
        λ chan.
            Reach_all_answered (Reach-concat r reach) quiet chan
            ∙ ap (λ (n : ℕ). if ltb chan n then 1 else 0) same,
      )
