-- ===== src/Download/Protocol/Lists.antt =====
-- The answers of `List` and `Latest`, by what the storage and the upstream lister say.
use athens.Prelude.{
  ◌≡◌, ◌≢◌, refl, true, false, ◌&&◌, ◌||◌, not, List, [], ◌∷◌, text_eq, Text, is_empty, contains,
  IsDistinct, arith, text_beq, text_beq_iff, Bool-cases, inl, inr,
}
use athens.Errors.{GoError, ok, err, kind, kind_not_found, is_repo_not_found_err, make_error, Fails}
use athens.Download.Versions.{remove_pseudo_versions, union, is_pseudo_version}
use athens.Download.Versions.Laws.{
  contains-union, union-IsDistinct, contains-remove_pseudo_versions,
}
use athens.Download.Protocol.{
  Opts, RevInfo, list, list_upstream, versions_of, strict, offline, fallback,
}

filled : (stored : List Text) → stored ≢ [] → is_empty stored ≡ false
filled [] h = absurd (h refl)
filled (v ∷ vs) h = refl

module _ {S : Type 0} (p : Opts S) (s : S) (mod_path : Text) where
  -- An error of the storage fails the listing with its kind, whatever the upstream says.
  list_storage_failure :
      (e : GoError) → p.storage.list s mod_path ≡ err e → Fails (list p s mod_path) (kind e)
  unfolding list make_error kind
  list_storage_failure e h = rw (h, list) refl

  module _ (stored : List Text) (found : p.storage.list s mod_path ≡ ok stored) where
    -- Offline, the listing is what is stored, and the upstream lister is not asked.
    pub list_offline : p.network_mode ≡ offline → list p s mod_path ≡ ok stored
    unfolding list
    list_offline h = rw (found, list) (ground (arith, text_beq_iff p.network_mode offline))

    module _ (online : p.network_mode ≢ offline) where
      list_online :
          list p s mod_path
          ≡ list_upstream p.network_mode mod_path stored (versions_of (p.upstream mod_path))
      unfolding list
      list_online = rw (found, list) (ground (arith, text_beq_iff p.network_mode offline))

      -- Where storage and upstream both answer and the mode is not offline, the listing holds each
      -- version once: exactly the upstream versions and the stored ones that are no pseudo versions.
      pub list_merged :
          (rev : RevInfo) (go_list : List Text)
          → p.upstream mod_path ≡ ok (rev, go_list)
          → (vs : List Text) × (list p s mod_path ≡ ok vs)
            × ((v : Text)
                → contains vs v
                  ≡ (contains go_list v || (contains stored v && not (is_pseudo_version v))))
            × IsDistinct vs
      list_merged rev go_list h = (
        union go_list (remove_pseudo_versions stored),
        rw list_online (rw h (unfold list_upstream versions_of in refl)),
        (λ v. rw (contains-union, contains-remove_pseudo_versions)),
        union-IsDistinct _ _,
      )

      module _ (e : GoError) (down : p.upstream mod_path ≡ err e) where
        list_down : list p s mod_path ≡ list_upstream p.network_mode mod_path stored (err e)
        list_down = rw list_online (rw down (unfold versions_of in refl))

        -- With the upstream out of reach, the strict mode fails as the upstream did.
        list_strict :
            is_repo_not_found_err e ≡ false
            → p.network_mode ≡ strict
            → Fails (list p s mod_path) (kind e)
        unfolding list_upstream make_error kind text_beq
        list_strict other h = rw list_down (rw (other, h) refl)

        -- The fallback mode then lists what is stored, pseudo versions included.
        list_fallback :
            is_repo_not_found_err e ≡ false
            → p.network_mode ≡ fallback
            → list p s mod_path ≡ ok stored
        unfolding list_upstream text_beq
        list_fallback other h = rw list_down (rw (other, h) refl)

        -- Where the repository is gone and nothing is stored, the module is not found.
        pub list_gone_empty :
            is_repo_not_found_err e ≡ true → stored ≡ [] → Fails (list p s mod_path) kind_not_found
        unfolding list_upstream make_error kind
        list_gone_empty gone nothing = rw list_down (rw (gone, nothing) refl)

        -- Where the repository is gone, something is stored and the mode is not offline, in the strict
        -- mode as in the others, the listing does not fail, and holds the stored versions that are no pseudo versions; all that is stored, if there are none.
        pub list_gone :
            is_repo_not_found_err e ≡ true
            → stored ≢ []
            → (vs : List Text) × (list p s mod_path ≡ ok vs)
              × ((v : Text)
                  → contains vs v ≡ (
                      contains stored v
                      && (not (is_pseudo_version v) || is_empty (remove_pseudo_versions stored))))
        unfolding list_upstream contains
        list_gone gone some_left =
            let full : is_empty stored ≡ false = filled stored some_left in
            elim (Bool-cases (is_empty (remove_pseudo_versions stored))) [
              | inl only ↦
                  (stored, rw list_down (rw (gone, full, only) refl), (λ v. rw only (ground arith)))
              | inr others ↦ (
                union [] (remove_pseudo_versions stored),
                rw list_down (rw (gone, full, others) refl),
                (λ v. rw (contains-union, contains-remove_pseudo_versions, others) (ground arith)),
              )
            ]
