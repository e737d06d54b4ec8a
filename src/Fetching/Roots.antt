-- ===== src/Fetching/Roots.antt =====
-- The directories that a fetch makes and clears.
use athens.Prelude.{
  ◌≡◌, refl, sym, ap, ◌∙◌, none, List, [], ◌∷◌, text_eq, nat_eq, Text, text, Option-cases, inl, inr,
  ◌⊎◌,
}
use athens.Errors.{Result-cases, GoError, Result, ok, err, make_error, error_arg}
use athens.Storage.Fs.{join}
use athens.Fetching.{
  GoModule, System, Decoder, Fetched, get_repo_dir_name, clear_files, download_module, read_module,
  fetch_in, fetch, close_zip,
}

-- The temporary directories of a disk. A new one comes first; the command and the other calls make
-- and remove none; the first one can be cleared.
pub record HasRoots {D : Type 0} (sys : System D) (roots : D → List Text) : Type 0 where
  pub made :
      (d : D) (dir root : Text)
      → (sys.temp_dir d dir).0 ≡ ok root
      → roots (sys.temp_dir d dir).1 ≡ root ∷ roots d
  pub not_made :
      (d : D) (dir : Text) (e : GoError)
      → (sys.temp_dir d dir).0 ≡ err e
      → roots (sys.temp_dir d dir).1 ≡ roots d
  pub kept_mkdir : (d : D) (dir : Text) → roots (sys.mkdir_all d dir).1 ≡ roots d
  pub kept_run :
      (d : D) (go_path dir : Text) (args : List Text)
      → roots (sys.run d go_path dir args).1 ≡ roots d
  pub kept_chmod : (d : D) (dir : Text) → roots (sys.chmod_all d dir).1 ≡ roots d
  pub walks :
      (d : D) (root : Text) (others : List Text)
      → roots d ≡ root ∷ others
      → (sys.chmod_all d root).0 ≡ none
  pub removes :
      (d : D) (root : Text) (others : List Text)
      → roots d ≡ root ∷ others
      → ((sys.remove_all d root).0 ≡ none) × (roots (sys.remove_all d root).1 ≡ others)

abbrev go_path_of : Result Fetched → Text
go_path_of (ok v) = v.go_path
go_path_of (err e) = []

module _ {D : Type 0} (sys : System D) (decode : Decoder GoModule) (roots : D → List Text)
    (laws : HasRoots sys roots) where
  pub clear_files-roots :
      (d : D) (root : Text) (others : List Text)
      → roots d ≡ root ∷ others
      → roots (clear_files sys decode d root).1 ≡ others
  unfolding clear_files
  clear_files-roots d root others h =
      let (gone, rest) =
        laws.removes (sys.chmod_all d root).1 root others (laws.kept_chmod d root ∙ h) in
      rw (clear_files, laws.walks d root others h, gone) rest

  run_kept :
      (d : D) (root repo mod_path ver : Text)
      → roots (download_module sys decode d root repo mod_path ver).1 ≡ roots d
  unfolding download_module
  run_kept d root repo mod_path ver = laws.kept_run d root repo _

  read_module-go_path :
      (d : D) (root : Text) (m : GoModule) (v : Fetched)
      → read_module sys decode d root m ≡ ok v
      → v.go_path ≡ root
  unfolding read_module
  read_module-go_path d root m v h = elim (Result-cases (sys.read_file d m.info)) [
    | inr (e, bad) ↦ absurd (cc (rw (read_module, bad) at h))
    | inl (info, a) ↦ elim (Result-cases (sys.read_file d m.go_mod)) [
      | inr (e, bad) ↦ absurd (cc (rw (read_module, a, bad) at h))
      | inl (go_mod, b) ↦ elim (Result-cases (sys.read_file d m.zip)) [
        | inr (e, bad) ↦ absurd (cc (rw (read_module, a, b, bad) at h))
        | inl (zip, c) ↦ ap go_path_of (sym (rw (read_module, a, b, c) at h))
      ]
    ]
  ]

  fetch_in-roots :
      (root : Text) (d : D) (mod_path ver : Text) (others : List Text)
      → roots d ≡ root ∷ others
      → ((v : Fetched) × ((fetch_in sys decode root d mod_path ver).0 ≡ ok v)
          × (v.go_path ≡ root)
          × (roots (fetch_in sys decode root d mod_path ver).1 ≡ root ∷ others))
        ⊎ (((e : GoError) × ((fetch_in sys decode root d mod_path ver).0 ≡ err e)
              × (roots (fetch_in sys decode root d mod_path ver).1 ≡ others))
            ⊎ ((m : GoModule) × (e : GoError) × (read_module sys decode
                    (fetch_in sys decode root d mod_path ver).1
                    root
                    m
                  ≡ err e)
                × ((fetch_in sys decode root d mod_path ver).0 ≡ err e)
                × (roots (fetch_in sys decode root d mod_path ver).1 ≡ root ∷ others)))
  unfolding fetch_in
  fetch_in-roots root d mod_path ver others h =
      let repo = join (join root (text "src")) (get_repo_dir_name mod_path ver) in
      let made = sys.mkdir_all d repo in
      let got = download_module sys decode made.1 root repo mod_path ver in
      let after_made = laws.kept_mkdir d repo ∙ h in
      let after_got = run_kept made.1 root repo mod_path ver ∙ after_made in
      elim (Option-cases made.0) [
        | inr (e, failed) ↦ inr (
            inl (
              make_error (text "goGetFetcher.Fetch") (error_arg e ∷ []),
              rw (fetch_in, failed) refl,
              rw (fetch_in, failed) (clear_files-roots made.1 root others after_made),
            ))
        | inl repo_made ↦ elim (Result-cases got.0) [
          | inr (e, failed) ↦ inr (
              inl (
                make_error (text "goGetFetcher.Fetch") (error_arg e ∷ []),
                rw (fetch_in, repo_made, failed) refl,
                rw (fetch_in, repo_made, failed) (clear_files-roots got.1 root others after_got),
              ))
          | inl (m, done) ↦ elim (Result-cases (read_module sys decode got.1 root m)) [
            | inl (v, whole) ↦ inl (
              v,
              rw (fetch_in, repo_made, done) whole,
              read_module-go_path got.1 root m v whole,
              rw (fetch_in, repo_made, done) after_got,
            )
            | inr (e, broken) ↦ inr (
                inr (
                  m,
                  e,
                  rw (fetch_in, repo_made, done) broken,
                  rw (fetch_in, repo_made, done) broken,
                  rw (fetch_in, repo_made, done) after_got,
                ))
          ]
        ]
      ]

  -- A fetch makes one directory at most. After a fetch that gives a version, just its directory is new,
  -- and closing the archive removes it. After a fetch that fails, none is left, but where the command
  -- gave a module of which a file cannot be read: then the directory stays.
  pub fetch-roots :
      (go_get_dir : Text) (d : D) (mod_path ver : Text)
      → ((v : Fetched) × ((fetch sys decode go_get_dir d mod_path ver).0 ≡ ok v)
          × (roots (fetch sys decode go_get_dir d mod_path ver).1 ≡ v.go_path ∷ roots d)
          × (roots (close_zip sys decode (fetch sys decode go_get_dir d mod_path ver).1 v).1
              ≡ roots d))
        ⊎ (((e : GoError) × ((fetch sys decode go_get_dir d mod_path ver).0 ≡ err e)
              × (roots (fetch sys decode go_get_dir d mod_path ver).1 ≡ roots d))
            ⊎ ((root : Text) × (m : GoModule) × (e : GoError) × (read_module sys decode
                    (fetch sys decode go_get_dir d mod_path ver).1
                    root
                    m
                  ≡ err e)
                × ((fetch sys decode go_get_dir d mod_path ver).0 ≡ err e)
                × (roots (fetch sys decode go_get_dir d mod_path ver).1 ≡ root ∷ roots d)))
  unfolding fetch close_zip
  fetch-roots go_get_dir d mod_path ver =
      let made = sys.temp_dir d go_get_dir in
      elim (Result-cases made.0) [
        | inr (e, failed) ↦ inr (
            inl (
              make_error (text "goGetFetcher.Fetch") (error_arg e ∷ []),
              rw (fetch, failed) refl,
              rw (fetch, failed) (laws.not_made d go_get_dir e failed),
            ))
        | inl (root, done) ↦
            elim (fetch_in-roots root made.1 mod_path ver (roots d)
              (laws.made d go_get_dir root done)) [
                | inl (v, whole, place, there) ↦ inl (
                  v,
                  rw (fetch, done) whole,
                  rw (fetch, done, place) there,
                  rw (fetch, done, place)
                      (clear_files-roots (fetch_in sys decode root made.1 mod_path ver).1 root
                        (roots d) there),
                )
                | inr (inl (e, failed, gone)) ↦
                    inr (inl (e, rw (fetch, done) failed, rw (fetch, done) gone))
                | inr (inr (m, e, broken, failed, there)) ↦ inr (
                    inr (
                      root,
                      m,
                      e,
                      rw (fetch, done) broken,
                      rw (fetch, done) failed,
                      rw (fetch, done) there,
                    ))
              ]
      ]
