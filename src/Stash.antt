-- ===== src/Stash.antt =====
-- pkg/stash: taking a version from upstream into the storage and the index. This file is stasher.go
-- and the wrappers that hold a lock around it (with_gcs.go, with_redis.go, with_etcd.go) or run it in
-- a pool (with_pool.go); Flight.antt is the in-memory single flight (with_singleflight.go).
pub mod Plain
pub mod Locks
pub mod Leases
pub mod Flight
mod Tests
use athens.Prelude.{
  Bool, true, false, ◌&&◌, not, Option, none, some, List, [], ◌∷◌, ◌++◌, ◌==◌, text_eq, nat_eq,
  if◌then◌else◌, Text, text, ℕ, leb,
}
use athens.Errors.{GoError, Result, ok, err, make_error, error_arg, is, kind_already_exists, plain}
use athens.Storage.{Backend, Version, exists}

-- config.FmtModVer
abbrev pub fmt_mod_ver : Text → Text → Text
fmt_mod_ver mod_path ver = mod_path ++ b'@' ∷ ver

-- What a stash writes to: the storage and the index.
pub record Target (S I : Type 0) : Type 0 where
  pub store : S
  pub lines : I

-- A stasher of this package: its new state comes back beside an error too.
abbrev pub Stasher : Type 0 → Type 0 → Type 0
Stasher S I = Target S I → Text → Text → Result Text × Target S I

-- The struct `stasher`: module.Fetcher, the storage with its checker, and index.Indexer.
pub record Parts (S I : Type 0) : Type 0 where
  pub fetch : Text → Text → Result Version
  pub storage : Backend S
  pub index : I → Text → Text → Option GoError × I

-- `err != nil && !errors.Is(err, errors.KindAlreadyExists)` of the index
unfoldable pub index_failure : Option GoError → Option GoError
unfolding is
index_failure none = none
index_failure (some e) = if is (some e) kind_already_exists then none else some e

module _ {S I : Type 0} (p : Parts S I) where
  fetch_module : Text → Text → Result Version
  fetch_module mod_path ver = elim (p.fetch mod_path ver) [
    | err e ↦ err (make_error (text "stasher.fetchModule") (error_arg e ∷ []))
    | ok v ↦ ok v
  ]

  -- From the call of `Save` on.
  save_and_index : Target S I → Text → Version → Result Text × Target S I
  unfolding index_failure
  save_and_index t mod_path v =
      let saved = p.storage.save t.store mod_path v in
      elim saved.0 [
        | some e ↦ (
          err (make_error (text "stasher.Stash") (error_arg e ∷ [])),
          record t { store = saved.1 },
        )
        | none ↦
            let indexed = p.index t.lines mod_path v.semver in
            (
              elim (index_failure indexed.0) [
                | some e ↦ err (make_error (text "stasher.Stash") (error_arg e ∷ []))
                | none ↦ ok v.semver
              ],
              record { store = saved.1; lines = indexed.1 },
            )
      ]

  pub stash : Stasher S I
  unfolding fetch_module save_and_index
  stash t mod_path ver = elim (fetch_module mod_path ver) [
    | err e ↦ (err (make_error (text "stasher.Stash") (error_arg e ∷ [])), t)
    | ok v ↦
        if v.semver == ver
        then save_and_index t mod_path v
        else elim (exists p.storage t.store mod_path v.semver) [
          | err e ↦ (err (make_error (text "stasher.Stash") (error_arg e ∷ [])), t)
          | ok there ↦ if there then (ok v.semver, t) else save_and_index t mod_path v
        ]
  ]

module _ {S I : Type 0} (inner : Stasher S I) where
  -- with_pool.go: a worker runs the inner stash, and the caller waits for it.
  unfoldable pub pool_stash : Stasher S I
  pool_stash t mod_path ver =
      let done = inner t mod_path ver in
      (
        elim done.0 [
          | err e ↦ err (make_error (text "stash.Pool") (error_arg e ∷ []))
          | ok new_ver ↦ ok new_ver
        ],
        done.1,
      )

  -- with_gcs.go: a backend that refuses to save twice makes the second stash a success.
  pub gcs_stash : Stasher S I
  unfolding is
  gcs_stash t mod_path ver =
      let done = inner t mod_path ver in
      (
        elim done.0 [
          | err e ↦
              if is (some e) kind_already_exists
              then ok ver
              else err (make_error (text "gcslock.Stash") (error_arg e ∷ []))
          | ok new_ver ↦ ok new_ver
        ],
        done.1,
      )

  -- Behind the lock: the check of the storage, then the stash.
  locked_stash : Text → Backend S → Stasher S I
  locked_stash op storage t mod_path ver = elim (exists storage t.store mod_path ver) [
    | err e ↦ (err (make_error op (error_arg e ∷ [])), t)
    | ok there ↦
        if there
        then (ok ver, t)
        else (let done = inner t mod_path ver in
            (
              elim done.0 [
                | err e ↦ err (make_error op (error_arg e ∷ []))
                | ok new_ver ↦ ok new_ver
              ],
              done.1,
            ))
  ]

  -- The deferred release: its error counts only where the stash had none.
  released : Text → Option GoError → Result Text → Result Text
  released op none r = r
  released op (some e) (ok v) = err (make_error op (error_arg e ∷ []))
  released op (some e) (err e') = err e'

  -- with_redis.go, with what the lock server answers to obtaining and to releasing the lock.
  pub redis_stash : Option GoError → Option GoError → Backend S → Stasher S I
  unfolding locked_stash released
  redis_stash (some e) release storage t mod_path ver =
      (err (make_error (text "redis.Stash") (error_arg e ∷ [])), t)
  redis_stash none release storage t mod_path ver =
      let done = locked_stash (text "redis.Stash") storage t mod_path ver in
      (released (text "redis.Release") release done.0, done.1)

  -- with_etcd.go, with what the cluster answers to a new session and to the lock.
  pub etcd_stash : Option GoError → Option GoError → Backend S → Stasher S I
  unfolding locked_stash
  etcd_stash (some e) lock storage t mod_path ver =
      (err (make_error (text "etcd.Stash") (error_arg e ∷ [])), t)
  etcd_stash none (some e) storage t mod_path ver =
      (err (make_error (text "etcd.Stash") (error_arg e ∷ [])), t)
  etcd_stash none none storage t mod_path ver =
      locked_stash (text "etcd.Stash") storage t mod_path ver

-- `lockOptionsFromConfig`: the configured numbers are Go ints; a negative one is refused like 0.
pub record LockOptions : Type 0 where
  pub ttl : ℕ
  pub timeout : ℕ
  pub max_retries : ℕ

unfoldable pub lock_options : ℕ → ℕ → ℕ → Result LockOptions
lock_options ttl timeout max_retries =
    if leb 1 ttl && (leb 1 timeout && leb 1 max_retries)
    then ok (record { ttl = ttl; timeout = timeout; max_retries = max_retries })
    else err (plain (text "invalid lock options"))
