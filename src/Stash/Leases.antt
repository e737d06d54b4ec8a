-- ===== src/Stash/Leases.antt =====
-- pkg/stash/with_azureblob.go: the lock that is a lease of a blob, which is renewed while the stash
-- runs in a goroutine. What the blob service answers, the times and the end of the context are the
-- order of the events.
pub mod Success
use athens.Prelude.{
  ◌≡◌, refl, ap, ◌⊎◌, inl, inr, ℕ, Bool, true, false, Option, none, some, List, [], ◌∷◌, ◌++◌, ◌==◌,
  nat_eq, if◌then◌else◌, Text, text, Option-cases, Bool-cases,
}
use athens.Errors.{GoError, Result, ok, err, make_error, error_arg}
use athens.Storage.{Backend, exists}
use athens.Stash.{Target, Stasher, fmt_mod_ver}

-- An error of a call of the service, with its status code where it is an azblob.StorageError.
pub record ServiceError : Type 0 where
  pub error : GoError
  pub status : Option ℕ

abbrev has_status : ℕ → ServiceError → Bool
has_status code e = elim e.status [ none ↦ false | some status ↦ status == code ]

-- One turn of the loop of acquireLease: the answer to AcquireLease, and in the wait after a conflict
-- whether the context ends before the second is over.
pub data Turn : Type 0 where
  leased : Text → Turn
  refused : ServiceError → Option GoError → Turn

abbrev acquire_error : GoError → Result Text
acquire_error e = err (make_error (text "azblobLock.acquireLease") (error_arg e ∷ []))

-- The loop on the turns that there are; none while it goes on.
unfoldable pub acquire_turns : List Turn → Option (Result Text)
acquire_turns [] = none
acquire_turns (leased id ∷ turns) = some (ok id)
acquire_turns (refused e ended ∷ turns) =
    let later = acquire_turns turns in
    if has_status 409 e
    then elim ended [ some done ↦ some (err done) | none ↦ later ]
    else some (acquire_error e.error)

-- acquireLease: the upload of the blob, which fails with 412 where another one has leased it, the
-- random id, and the loop.
unfoldable pub acquire_lease :
    Option ServiceError → Option GoError → List Turn → Option (Result Text)
unfolding acquire_turns
acquire_lease none (some e) turns = some (acquire_error e)
acquire_lease none none turns = acquire_turns turns
acquire_lease (some u) random turns =
    if has_status 412 u
    then elim random [ some e ↦ some (acquire_error e) | none ↦ acquire_turns turns ]
    else some (acquire_error u.error)

-- What happens while Stash waits: the stash in the goroutine returns, its result is passed_on, ten
-- seconds are over and the lease is renewed or not, or the context ends.
pub data LeaseEvent : Type 0 where
  stash_returns receives : LeaseEvent
  renews : Option GoError → LeaseEvent
  context_ends : GoError → LeaseEvent

module _ {S I : Type 0} (inner : Stasher S I) where
  abbrev pub stash_error : GoError → Result Text
  stash_error e = err (make_error (text "azblobLock.Stash") (error_arg e ∷ []))

  abbrev pub passed_on : Result Text → Result Text
  passed_on (ok new_ver) = ok new_ver
  passed_on (err e) = stash_error e

  -- The loop, with the result that the goroutine offers; none while it waits. The stash goes on in
  -- its goroutine where the loop returns before it: the state is the one at the return.
  unfoldable pub wait :
      List LeaseEvent
      → Option (Result Text)
      → Target S I
      → Text
      → Text
      → Option (Result Text) × Target S I
  wait [] offered t mod_path ver = (none, t)
  wait (stash_returns ∷ events) (some r) t mod_path ver = wait events (some r) t mod_path ver
  wait (stash_returns ∷ events) none t mod_path ver =
      wait events (some (inner t mod_path ver).0) (inner t mod_path ver).1 mod_path ver
  wait (receives ∷ events) none t mod_path ver = wait events none t mod_path ver
  wait (receives ∷ events) (some r) t mod_path ver = (some (passed_on r), t)
  wait (renews none ∷ events) offered t mod_path ver = wait events offered t mod_path ver
  wait (renews (some e) ∷ events) offered t mod_path ver = (some (stash_error e), t)
  wait (context_ends e ∷ events) offered t mod_path ver = (some (stash_error e), t)

  -- The deferred release of the lease.
  abbrev pub release_lease : Option GoError → Option (Result Text) → Option (Result Text)
  release_lease none r = r
  release_lease (some e) none = none
  release_lease (some e) (some (ok v)) =
      some (err (make_error (text "azblobLock.Unlock") (error_arg e ∷ [])))
  release_lease (some e) (some (err bad)) = some (err bad)

  unfoldable pub leased_stash :
      Backend S → List LeaseEvent → Target S I → Text → Text → Option (Result Text) × Target S I
  unfolding wait
  leased_stash storage events t mod_path ver = elim (exists storage t.store mod_path ver) [
    | err e ↦ (some (stash_error e), t)
    | ok there ↦ if there then (some (ok ver), t) else wait events none t mod_path ver
  ]

  -- azblobLock.Stash, with what acquireLease and the release give.
  unfoldable pub azblob_stash :
      Option (Result Text)
      → Option GoError
      → Backend S
      → List LeaseEvent
      → Target S I
      → Text
      → Text
      → Option (Result Text) × Target S I
  unfolding leased_stash
  azblob_stash none release storage events t mod_path ver = (none, t)
  azblob_stash (some (err e)) release storage events t mod_path ver = (some (stash_error e), t)
  azblob_stash (some (ok lease_id)) release storage events t mod_path ver =
      let done = leased_stash storage events t mod_path ver in
      (release_lease release done.0, done.1)
