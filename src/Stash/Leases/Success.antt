-- ===== src/Stash/Leases/Success.antt =====
-- When a stash under a lease succeeds.
use athens.Prelude.{
  ◌≡◌, refl, sym, ap, ◌∙◌, ◌⊎◌, inl, inr, true, false, Option, none, some, List, [], ◌∷◌, Text,
  Bool-cases,
}
use athens.Errors.{Result-cases, GoError, Result, ok, err}
use athens.Storage.{Backend, exists}
use athens.Stash.{Target, Stasher}
use athens.Stash.Leases.{
  LeaseEvent, stash_returns, receives, renews, context_ends, wait, release_lease, leased_stash,
  azblob_stash,
}

some-injective : (a b : Result Text) → some a ≡ some b → a ≡ b
some-injective a b h = cc

text_injective : (a b : Text) → Path (Option (Result Text)) (some (ok a)) (some (ok b)) → a ≡ b
text_injective a b h = cc

pair_eq :
    {T : Type 0} (p : Result Text × T) (r : Text) (t : T) → p.0 ≡ ok r → t ≡ p.1 → p ≡ (ok r, t)
pair_eq (x, y) r t h k = rw (h, k) refl

module _ {S I : Type 0} (inner : Stasher S I) where
  wait-ok :
      (events : List LeaseEvent) (offered : Option (Result Text)) (t : Target S I)
      (mod_path ver r : Text)
      → (wait inner events offered t mod_path ver).0 ≡ some (ok r)
      → ((offered ≡ none)
          × (inner t mod_path ver ≡ (ok r, (wait inner events offered t mod_path ver).1)))
        ⊎ ((offered ≡ some (ok r)) × ((wait inner events offered t mod_path ver).1 ≡ t))
  unfolding wait
  wait-ok [] offered t mod_path ver r h = absurd (cc)
  wait-ok (stash_returns ∷ events) (some o) t mod_path ver r h =
      wait-ok events (some o) t mod_path ver r h
  wait-ok (stash_returns ∷ events) none t mod_path ver r h =
      elim (wait-ok events (some (inner t mod_path ver).0) (inner t mod_path ver).1 mod_path ver r
        h) [
          | inl (e, same) ↦ absurd (cc)
          | inr (e, same) ↦ inl (
            refl,
            pair_eq (inner t mod_path ver) r
                (wait inner events (some (inner t mod_path ver).0) (inner t mod_path ver).1 mod_path
                  ver).1
                (some-injective (inner t mod_path ver).0 (ok r) e) same,
          )
        ]
  wait-ok (receives ∷ events) none t mod_path ver r h = wait-ok events none t mod_path ver r h
  wait-ok (receives ∷ events) (some (ok o)) t mod_path ver r h = inr (cc, refl)
  wait-ok (receives ∷ events) (some (err o)) t mod_path ver r h = absurd (cc)
  wait-ok (renews none ∷ events) offered t mod_path ver r h =
      wait-ok events offered t mod_path ver r h
  wait-ok (renews (some e) ∷ events) offered t mod_path ver r h = absurd (cc)
  wait-ok (context_ends e ∷ events) offered t mod_path ver r h = absurd (cc)

  released_ok :
      (release : Option GoError) (o : Option (Result Text)) (r : Text)
      → release_lease inner release o ≡ some (ok r)
      → (release ≡ none) × (o ≡ some (ok r))
  released_ok none o r h = (refl, h)
  released_ok (some e) none r h = absurd (cc)
  released_ok (some e) (some (ok v)) r h = absurd (cc)
  released_ok (some e) (some (err bad)) r h = absurd (cc)

  -- A stash under a lease that succeeds, whatever the blob service answers and in whatever order the
  -- stash, the renewals and the end of the context come: the lease was obtained and released, and
  -- either the version was stored already, is returned as it was asked for, and nothing has changed,
  -- or it was not stored, and the inner stash succeeded with this version and this state.
  pub azblob_stash-ok :
      (lease : Option (Result Text)) (release : Option GoError) (storage : Backend S)
      (events : List LeaseEvent) (t u : Target S I) (mod_path ver r : Text)
      → azblob_stash inner lease release storage events t mod_path ver ≡ (some (ok r), u)
      → ((id : Text) × (lease ≡ some (ok id)))
        × (release ≡ none)
        × (((exists storage t.store mod_path ver ≡ ok true) × (r ≡ ver) × (u ≡ t))
            ⊎ ((exists storage t.store mod_path ver ≡ ok false)
                × (inner t mod_path ver ≡ (ok r, u))))
  unfolding azblob_stash leased_stash
  azblob_stash-ok none release storage events t u mod_path ver r h = absurd (cc (ap (λ p. p.0) h))
  azblob_stash-ok (some (err e)) release storage events t u mod_path ver r h =
      absurd (cc (ap (λ p. p.0) h))
  azblob_stash-ok (some (ok id)) release storage events t u mod_path ver r h =
      let done = leased_stash inner storage events t mod_path ver in
      let (free, fine) = released_ok release done.0 r (ap (λ p. p.0) h) in
      let state : done.1 ≡ u = ap (λ p. p.1) h in
      (
        (id, refl),
        free,
        elim (Result-cases (exists storage t.store mod_path ver)) [
          | inr (e, bad) ↦ absurd (cc (rw (leased_stash, bad) at fine))
          | inl (there, asked) ↦ elim (Bool-cases there) [
            | inl stored ↦
                let known : exists storage t.store mod_path ver ≡ ok true = asked ∙ ap ok stored in
                inl (
                  known,
                  sym (text_injective ver r (rw (leased_stash, known) at fine)),
                  sym (rw (leased_stash, known) at state),
                )
            | inr new ↦
                let known : exists storage t.store mod_path ver ≡ ok false = asked ∙ ap ok new in
                elim (wait-ok events none t mod_path ver r (rw (leased_stash, known) at fine)) [
                  | inr (e, same) ↦ absurd (cc)
                  | inl (e, stashed) ↦
                      inr (known, stashed ∙ ap (λ s. (ok r, s)) (rw (leased_stash, known) at state))
                ]
          ]
        ],
      )
