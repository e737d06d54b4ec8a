-- ===== src/Stash/Locks.antt =====
-- The wrappers that hold a lock: when the inner stash runs, and which error the caller sees.
use athens.Prelude.{
  ◌≡◌, ◌≢◌, refl, ◌⊎◌, inl, inr, Bool-cases, true, false, Option, none, some, [], ◌∷◌, ◌==◌, nat_eq,
  Text, text, arith,
}
use athens.Errors.{GoError, ok, err, make_error, error_arg, is, kind, kind_already_exists, Fails}
use athens.Storage.{Backend, exists}
use athens.Stash.{Target, Stasher, gcs_stash, locked_stash, redis_stash}

module _ {S I : Type 0} (inner : Stasher S I) (t : Target S I) (mod_path ver : Text) where
  -- Where the inner stash fails, the stash with the GCS lock succeeds exactly if the version was
  -- saved before, with the state of the inner stash; any other failure keeps its kind.
  gcs_stash_failure :
      (e : GoError)
      → (inner t mod_path ver).0 ≡ err e
      → ((kind e ≡ kind_already_exists)
          × (gcs_stash inner t mod_path ver ≡ (ok ver, (inner t mod_path ver).1)))
        ⊎ ((kind e ≢ kind_already_exists) × Fails (gcs_stash inner t mod_path ver).0 (kind e))
  unfolding gcs_stash make_error kind
  gcs_stash_failure e h = elim (Bool-cases (kind e == kind_already_exists)) [
    | inl before ↦ inl (unfold kind in ground arith, rw (h, gcs_stash) (rw (before, is) refl))
    | inr other ↦
        inr ((λ same. unfold kind in ground arith), rw (h, gcs_stash) (rw (other, is) refl))
  ]

  -- A stash that succeeds is what the stash with the GCS lock returns.
  pub gcs_stash-ok :
      (r : Text)
      → (inner t mod_path ver).0 ≡ ok r
      → gcs_stash inner t mod_path ver ≡ inner t mod_path ver
  unfolding gcs_stash
  gcs_stash-ok r h = rw (gcs_stash, h) refl

  module _ (storage : Backend S) where
    locked_stash-there :
        (op : Text)
        → exists storage t.store mod_path ver ≡ ok true
        → locked_stash inner op storage t mod_path ver ≡ (ok ver, t)
    unfolding locked_stash
    locked_stash-there op there = rw (there, locked_stash) refl

    locked_stash-ok :
        (op : Text) (r : Text)
        → exists storage t.store mod_path ver ≡ ok false
        → (inner t mod_path ver).0 ≡ ok r
        → locked_stash inner op storage t mod_path ver ≡ (ok r, (inner t mod_path ver).1)
    unfolding locked_stash
    locked_stash-ok op r new h = rw (new, locked_stash) (rw h refl)

    locked_stash-err :
        (op : Text) (e : GoError)
        → exists storage t.store mod_path ver ≡ ok false
        → (inner t mod_path ver).0 ≡ err e
        → locked_stash inner op storage t mod_path ver
          ≡ (err (make_error op (error_arg e ∷ [])), (inner t mod_path ver).1)
    unfolding locked_stash
    locked_stash-err op e new h = rw (new, locked_stash) (rw h refl)

    -- Where the redis lock is obtained and released and the version is stored already, it is not
    -- stashed again: the state stays, and the version is returned as it was asked for.
    redis_stash_once :
        exists storage t.store mod_path ver ≡ ok true
        → redis_stash inner none none storage t mod_path ver ≡ (ok ver, t)
    redis_stash_once there =
        unfold redis_stash in rw (locked_stash-there (text "redis.Stash") there, redis_stash) refl

    -- A lock that cannot be obtained fails the stash with its kind, and nothing is written.
    pub redis_stash_not_obtained :
        (e : GoError) (release : Option GoError)
        → Fails (redis_stash inner (some e) release storage t mod_path ver).0 (kind e)
          × ((redis_stash inner (some e) release storage t mod_path ver).1 ≡ t)
    unfolding redis_stash make_error kind
    redis_stash_not_obtained e release = (refl, refl)

    module _ (new : exists storage t.store mod_path ver ≡ ok false) where
      -- Where the redis lock is obtained, the version is not stored and the inner stash fails, the
      -- call fails with the kind of that failure, whether or not the lock can be released, and the
      -- state is that of the inner stash.
      redis_stash_failure :
          (e : GoError) (release : Option GoError)
          → (inner t mod_path ver).0 ≡ err e
          → Fails (redis_stash inner none release storage t mod_path ver).0 (kind e)
            × ((redis_stash inner none release storage t mod_path ver).1 ≡ (inner t mod_path ver).1)
      redis_stash_failure e none h =
          unfold redis_stash make_error kind in
          (
            rw (locked_stash-err (text "redis.Stash") e new h) refl,
            rw (locked_stash-err (text "redis.Stash") e new h) refl,
          )
      redis_stash_failure e (some e') h =
          unfold redis_stash make_error kind in
          (
            rw (locked_stash-err (text "redis.Stash") e new h) refl,
            rw (locked_stash-err (text "redis.Stash") e new h) refl,
          )

      -- After a stash that worked, a lock that cannot be released fails the call, though the version
      -- is written.
      pub redis_stash_not_released :
          (e : GoError) (r : Text)
          → (inner t mod_path ver).0 ≡ ok r
          → Fails (redis_stash inner none (some e) storage t mod_path ver).0 (kind e)
            × ((redis_stash inner none (some e) storage t mod_path ver).1
                ≡ (inner t mod_path ver).1)
      redis_stash_not_released e r h =
          unfold redis_stash make_error kind in
          (
            rw (locked_stash-ok (text "redis.Stash") r new h) refl,
            rw (locked_stash-ok (text "redis.Stash") r new h) refl,
          )
