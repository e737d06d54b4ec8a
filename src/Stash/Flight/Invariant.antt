-- ===== src/Stash/Flight/Invariant.antt =====
-- At most one stash of a key is in flight, and every waiting caller has one that will answer it.
use athens.Prelude.{
  ◌≡◌, refl, sym, ap, ◌∙◌, Bool, true, false, Option, none, some, List, [], ◌∷◌, ◌++◌, ◌==◌,
  text_eq, if◌then◌else◌, Text, lookup, lookup-insert, lookup-delete, contains, contains-append,
  IsDistinct, arith, text_beq_iff, Option-cases, inl, inr,
}
use athens.Errors.{Result}
use athens.Stash.{fmt_mod_ver}
use athens.Stash.Flight.{
  Process, key, State, subscribe, deliver, Step, call, run, answer, Reach, here, next, start,
}

abbrev pub is_some {ℓ} : {A : Type ℓ} → Option A → Bool
is_some none = false
is_some (some a) = true

abbrev pub keys : List Process → List Text
keys [] = []
keys (p ∷ ps) = key p ∷ keys ps

-- The keys of the goroutines are distinct, and they are the keys that callers wait under.
pub record IsSound {T : Type 0} (st : State T) : Type 0 where
  pub single : IsDistinct (keys st.processes)
  pub answered : (mv : Text) → is_some (lookup st.subs mv) ≡ contains (keys st.processes) mv

keys-append : (ps qs : List Process) → keys (ps ++ qs) ≡ keys ps ++ keys qs
keys-append [] qs = refl
keys-append (p ∷ ps) qs = ap (λ ks. key p ∷ ks) (keys-append ps qs)

-- A key that is new at the end, and one that is taken out of the middle.
IsDistinct-concat :
    (ks : List Text) (k : Text) → IsDistinct ks → contains ks k ≡ false → IsDistinct (ks ++ k ∷ [])
unfolding contains
IsDistinct-concat [] k h new = (refl, tt)
IsDistinct-concat (j ∷ ks) k (once, h) new = (
  contains-append ks (k ∷ []) j ∙ ground (arith, text_beq_iff j k, text_beq_iff k j),
  IsDistinct-concat ks k h (ground arith),
)

IsDistinct-remove :
    (before after : List Text) (k : Text)
    → IsDistinct (before ++ k ∷ after)
    → IsDistinct (before ++ after)
unfolding contains
IsDistinct-remove [] after k (once, h) = h
IsDistinct-remove (j ∷ before) after k (once, h) = (
  ground (arith, contains-append before (k ∷ after) j, contains-append before after j),
  IsDistinct-remove before after k h,
)

contains-remove :
    (before after : List Text) (k j : Text)
    → IsDistinct (before ++ k ∷ after)
    → contains (before ++ after) j ≡ (if j == k then false else contains (before ++ k ∷ after) j)
unfolding contains
contains-remove [] after k j (once, h) = ground (arith, text_beq_iff j k, text_beq_iff k j)
contains-remove (i ∷ before) after k j (once, h) = ground (
  arith,
  contains-remove before after k j h,
  contains-append before (k ∷ after) i,
  text_beq_iff j k,
  text_beq_iff k j,
  text_beq_iff i j,
  text_beq_iff k i,
  text_beq_iff i k,
)

module _ {T : Type 0} (st : State T) (h : IsSound st) where
  subscribe-IsSound : (mod_path ver : Text) → IsSound (subscribe st mod_path ver)
  unfolding subscribe
  subscribe-IsSound mod_path ver =
      let mv = fmt_mod_ver mod_path ver in
      elim (Option-cases (lookup st.subs mv)) [
        | inl idle ↦
            rw (idle, subscribe)
              (record {
                single = rw keys-append (
                    IsDistinct-concat (keys st.processes) mv h.single
                      (ground (arith, h.answered mv)));
                answered = λ j.
                    rw (lookup-insert, keys-append, contains-append)
                      (unfold contains in
                        ground (arith, h.answered j, text_beq_iff j mv, text_beq_iff mv j));
              })
        | inr (chans, busy) ↦
            rw (busy, subscribe)
              (record {
                single = h.single;
                answered = λ j.
                    rw lookup-insert
                      (ground (arith, h.answered j, h.answered mv, text_beq_iff j mv));
              })
      ]

  deliver-IsSound :
      (before after : List Process) (p : Process) (r : Result Text)
      → st.processes ≡ before ++ p ∷ after
      → IsSound (deliver st p (before ++ after) r)
  unfolding deliver
  deliver-IsSound before after p r e =
      let split : keys st.processes ≡ keys before ++ key p ∷ keys after =
        ap keys e ∙ keys-append before (p ∷ after) in
      let distinct : IsDistinct (keys before ++ key p ∷ keys after) = rw split at h.single in
      record {
        single =
            rw (keys-append before after)
              (IsDistinct-remove (keys before) (keys after) (key p) distinct);
        answered = λ mv.
            rw
              (
                lookup-delete,
                keys-append before after,
                contains-remove (keys before) (keys after) (key p) mv distinct,
              )
              (ground (arith, h.answered mv, ap (λ (ks : List Text). contains ks mv) split));
      }

  run-IsSound :
      (before after : List Process) (p p' : Process) (t : T)
      → st.processes ≡ before ++ p ∷ after
      → key p' ≡ key p
      → IsSound (record st { processes = before ++ p' ∷ after; target = t })
  run-IsSound before after p p' t e same =
      let split : keys (before ++ p' ∷ after) ≡ keys st.processes =
        keys-append before (p' ∷ after)
        ∙ ap (λ k. keys before ++ k ∷ keys after) same
        ∙ sym (keys-append before (p ∷ after))
        ∙ sym (ap keys e) in
      record { single = rw split h.single; answered = λ mv. rw split (h.answered mv) }

module _ {T : Type 0} {inner : T → Text → Text → Result Text × T} where
  Step-IsSound : {st u : State T} → Step inner st u → IsSound st → IsSound u
  Step-IsSound {st} (call mod_path ver) h = subscribe-IsSound st h mod_path ver
  Step-IsSound {st} (run before after p e idle) h = run-IsSound st h before after p _ _ e refl
  Step-IsSound {st} (answer before after p r e done) h = deliver-IsSound st h before after p r e

  -- However callers and goroutines interleave, no two goroutines stash the same module@version at
  -- the same time, and callers wait for one exactly where a goroutine for it is in flight.
  pub Reach-IsSound : {target : T} {st : State T} → Reach inner (start target) st → IsSound st
  Reach-IsSound here = record { single = tt; answered = λ mv. unfold lookup contains in refl }
  Reach-IsSound (next r s) = Step-IsSound s (Reach-IsSound r)
