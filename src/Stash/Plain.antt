-- ===== src/Stash/Plain.antt =====
-- What the plain stasher writes and what it returns.
use athens.Prelude.{
  ◌≡◌, ◌≢◌, refl, sym, ◌∙◌, ◌↔◌, ◌⊎◌, inl, inr, ◌==◌, true, false, none, text_eq, Text, arith,
  text_beq_iff, Option-cases, Bool-cases,
}
use athens.Errors.{GoError, Result, Result-cases, ok, err, make_error, kind, Fails}
use athens.Storage.{Version, exists}
use athens.Stash.{Target, Parts, fetch_module, index_failure, save_and_index, stash}

success-injective :
    {T : Type 0} (a r : Text) (t u : T)
    → Path (Result Text × T) (ok a, t) (ok r, u)
    → (r ≡ a) × (u ≡ t)
success-injective a r t u h = (cc, cc)

module _ {S I : Type 0} (p : Parts S I) (t : Target S I) (mod_path ver : Text) where
  save_and_index-semver :
      (v : Version) (r : Text) → (save_and_index p t mod_path v).0 ≡ ok r → r ≡ v.semver
  unfolding save_and_index
  save_and_index-semver v r h = ground arith

  -- A fetch that fails fails the stash with the kind of its error, and nothing is written.
  stash_fetch_failure :
      (e : GoError)
      → p.fetch mod_path ver ≡ err e
      → Fails (stash p t mod_path ver).0 (kind e) × ((stash p t mod_path ver).1 ≡ t)
  unfolding stash
  stash_fetch_failure e h = (
    rw (h, fetch_module, stash) (unfold make_error kind in refl),
    rw (h, fetch_module, stash) refl,
  )

  module _ (v : Version) (fetched : p.fetch mod_path ver ≡ ok v) where
    -- Where the fetch of the version that was asked for gives another version, and that one is
    -- stored already, the stash returns that one and writes nothing.
    stash_stored :
        v.semver ≢ ver
        → exists p.storage t.store mod_path v.semver ≡ ok true
        → stash p t mod_path ver ≡ (ok v.semver, t)
    unfolding stash fetch_module
    stash_stored other there =
        rw (fetched, fetch_module, stash) (ground (arith, text_beq_iff v.semver ver))

    -- Where the fetched version is the one that was asked for or is not stored, and the save and the
    -- index have no failure.
    pub stash_saved :
        (v.semver ≡ ver) ⊎ (exists p.storage t.store mod_path v.semver ≡ ok false)
        → (p.storage.save t.store mod_path v).0 ≡ none
        → index_failure (p.index t.lines mod_path v.semver).0 ≡ none
        → stash p t mod_path ver ≡ (
          ok v.semver,
          record {
            store = (p.storage.save t.store mod_path v).1;
            lines = (p.index t.lines mod_path v.semver).1;
          },
        )
    unfolding stash
    stash_saved (inl same) saved indexed =
        rw (fetched, fetch_module, stash) (ground (arith, text_beq_iff v.semver ver))
    stash_saved (inr new) saved indexed = rw (fetched, fetch_module, stash) (ground arith)

    -- After a fetch that succeeds, a version that the stash returns is the fetched one.
    stash-semver : (r : Text) → (stash p t mod_path ver).0 ≡ ok r → r ≡ v.semver
    unfolding stash fetch_module
    stash-semver r h = ground (arith, save_and_index-semver v)

  -- What a stash has done that took the fetched version from upstream: the version is the one that was
  -- asked for or was not stored, it is saved, and it is written to the index, which gives no error but
  -- that it has the version already.
  abbrev pub IsSaved : Version → Target S I → Type 0
  IsSaved v u =
      ((v.semver ≡ ver) ⊎ (exists p.storage t.store mod_path v.semver ≡ ok false))
      × ((p.storage.save t.store mod_path v).0 ≡ none)
      × (index_failure (p.index t.lines mod_path v.semver).0 ≡ none)
      × (u ≡ record {
        store = (p.storage.save t.store mod_path v).1;
        lines = (p.index t.lines mod_path v.semver).1;
      })

  -- What a stash has done that found the fetched version stored under a name that was not asked for.
  abbrev pub IsKept : Version → Target S I → Type 0
  IsKept v u = (v.semver ≢ ver) × (exists p.storage t.store mod_path v.semver ≡ ok true) × (u ≡ t)

  save_and_index-fine :
      (v : Version)
      → (p.storage.save t.store mod_path v).0 ≡ none
      → index_failure (p.index t.lines mod_path v.semver).0 ≡ none
      → save_and_index p t mod_path v ≡ (
        ok v.semver,
        record {
          store = (p.storage.save t.store mod_path v).1;
          lines = (p.index t.lines mod_path v.semver).1;
        },
      )
  unfolding save_and_index
  save_and_index-fine v saved indexed = rw (save_and_index, saved, indexed) refl

  save_and_index-IsSaved :
      (v : Version) (r : Text) (u : Target S I)
      → (v.semver ≡ ver) ⊎ (exists p.storage t.store mod_path v.semver ≡ ok false)
      → save_and_index p t mod_path v ≡ (ok r, u)
      → (r ≡ v.semver) × IsSaved v u
  unfolding save_and_index
  save_and_index-IsSaved v r u new h = elim (Option-cases (p.storage.save t.store mod_path v).0) [
    | inr (e, bad) ↦ absurd (ground arith)
    | inl saved ↦ elim (Option-cases (index_failure (p.index t.lines mod_path v.semver).0)) [
      | inr (e, bad) ↦ absurd (ground arith)
      | inl indexed ↦
          let (same, state) =
            success-injective v.semver r _ u (sym (save_and_index-fine v saved indexed) ∙ h) in
          (same, (new, saved, indexed, state))
    ]
  ]

  stash_unfetched :
      (e : GoError)
      → p.fetch mod_path ver ≡ err e
      → (r : Text) (u : Target S I) → stash p t mod_path ver ≡ (ok r, u)
      → ⊥
  unfolding stash fetch_module
  stash_unfetched e failed r u h = ground arith

  stash_fetched :
      (v : Version)
      → p.fetch mod_path ver ≡ ok v
      → (r : Text) (u : Target S I) → stash p t mod_path ver ≡ (ok r, u)
      → (r ≡ v.semver) × (IsKept v u ⊎ IsSaved v u)
  unfolding stash fetch_module
  stash_fetched v fetched r u h = elim (Bool-cases (v.semver == ver)) [
    | inl asked ↦
        let new : (v.semver ≡ ver) ⊎ (exists p.storage t.store mod_path v.semver ≡ ok false) =
          inl ((text_beq_iff v.semver ver).0 asked) in
        let (same, saved) =
          save_and_index-IsSaved v r u new (rw (stash, fetched, fetch_module, asked) at h) in
        (same, inr saved)
    | inr other ↦ elim (Result-cases (exists p.storage t.store mod_path v.semver)) [
      | inr (e, bad) ↦ absurd (ground arith)
      | inl (true, there) ↦
          let (same, kept) = success-injective v.semver r t u (
            sym (
              stash_stored v fetched (λ e. absurd (ground (arith, text_beq_iff v.semver ver)))
                there)
            ∙ h) in
          (same, inl ((λ e. absurd (ground (arith, text_beq_iff v.semver ver))), there, kept))
      | inl (false, new) ↦
          let (same, saved) =
            save_and_index-IsSaved v r u (inr new)
              (rw (stash, fetched, fetch_module, other, new) at h) in
          (same, inr saved)
    ]
  ]

  -- A stash succeeds exactly if the fetch does and either the fetched version has another name than the
  -- one that was asked for and is stored, and then nothing is written, or it has that name or is not
  -- stored, and then it is saved and in the index, without a failure of the two. It returns the fetched version.
  pub stash_ok_iff :
      (r : Text) (u : Target S I)
      → (stash p t mod_path ver ≡ (ok r, u)) ↔ (
          (v : Version) × (p.fetch mod_path ver ≡ ok v)
          × (r ≡ v.semver)
          × (IsKept v u ⊎ IsSaved v u))
  stash_ok_iff r u = (
    λ h. elim (Result-cases (p.fetch mod_path ver)) [
      | inr (e, failed) ↦ absurd (stash_unfetched e failed r u h)
      | inl (v, fetched) ↦
          let (same, done) = stash_fetched v fetched r u h in (v, fetched, same, done)
    ],
    λ (v, fetched, same, done). elim done [
      | inl (other, there, kept) ↦ rw (same, kept) (stash_stored v fetched other there)
      | inr (new, saved, indexed, state) ↦
          rw (same, state) (stash_saved v fetched new saved indexed)
    ],
  )
