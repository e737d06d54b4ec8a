-- ===== src/Fetching/Listing.antt =====
-- pkg/module/go_vcs_lister.go: the versions that `go list` finds, in a directory and a GOPATH of their
-- own, which are removed at the end.
use athens.Prelude.{◌≡◌, refl, ◌∙◌, none, some, List, [], ◌∷◌, ◌++◌, Text, text, inl, inr}
use athens.Errors.{
  Result-cases, GoError, Result, ok, err, wrapped, make_error, error_arg, kind_arg, kind_not_found,
  message,
}
use athens.Stash.{fmt_mod_ver}
use athens.Fetching.{GoModule, Output, System, Decoder, clear_files}
use athens.Fetching.Roots.{HasRoots, clear_files-roots}

-- listResp: the latest version with its time, and all versions.
pub record ListResp : Type 0 where
  pub time : Text
  pub version : Text
  pub versions : List Text

abbrev list_error : {A : Type 0} → GoError → Result A
list_error e = err (make_error (text "vcsLister.List") (error_arg e ∷ []))

-- From the end of the command on.
unfoldable pub listed : Decoder ListResp → Output → Result (Text × Text × List Text)
listed decode o = elim o.run_error [
  | some e ↦ err (
      make_error (text "vcsLister.List")
        (error_arg (wrapped (message e ++ text ": " ++ o.stderr) e) ∷ kind_arg kind_not_found ∷ []))
  | none ↦ elim (decode o.stdout) [
    | err bad ↦ list_error bad
    | ok lr ↦ ok (lr.time, lr.version, lr.versions)
  ]
]

module _ {D : Type 0} (sys : System D) (decode : Decoder ListResp)
    (decode_module : Decoder GoModule) where
  -- The command in its two directories; the deferred calls clear the second one first.
  unfoldable pub list_in : Text → Text → D → Text → Result (Text × Text × List Text) × D
  unfolding listed clear_files
  list_in tmp_dir go_path d mod_path =
      let ran = sys.run d go_path tmp_dir (
        text "list"
        ∷ text "-m"
        ∷ text "-versions"
        ∷ text "-json"
        ∷ fmt_mod_ver mod_path (text "latest")
        ∷ []) in
      (
        listed decode ran.0,
        (sys.remove_all (clear_files sys decode_module ran.1 go_path).1 tmp_dir).1,
      )

  unfoldable pub vcs_list : D → Text → Result (Text × Text × List Text) × D
  unfolding list_in
  vcs_list d mod_path =
      let tmp = sys.temp_dir d [] in
      elim tmp.0 [
        | err e ↦ (list_error e, tmp.1)
        | ok tmp_dir ↦
            let second = sys.temp_dir tmp.1 [] in
            elim second.0 [
              | err e ↦ (list_error e, (sys.remove_all second.1 tmp_dir).1)
              | ok go_path ↦ list_in tmp_dir go_path second.1 mod_path
            ]
      ]

  -- A listing leaves no temporary directory, whatever the command does.
  pub vcs_list-roots :
      (roots : D → List Text) (laws : HasRoots sys roots) (d : D) (mod_path : Text)
      → roots (vcs_list d mod_path).1 ≡ roots d
  unfolding vcs_list list_in
  vcs_list-roots roots laws d mod_path =
      let tmp = sys.temp_dir d [] in
      elim (Result-cases tmp.0) [
        | inr (e, failed) ↦ rw (vcs_list, failed) (laws.not_made d [] e failed)
        | inl (tmp_dir, made) ↦
            let first = laws.made d [] tmp_dir made in
            let second = sys.temp_dir tmp.1 [] in
            elim (Result-cases second.0) [
              | inr (e, failed) ↦
                  rw (vcs_list, made, failed)
                    (laws.removes second.1 tmp_dir (roots d)
                      (laws.not_made tmp.1 [] e failed ∙ first)).1
              | inl (go_path, again) ↦
                  let both = laws.made tmp.1 [] go_path again ∙ rw first refl in
                  let cleared =
                    clear_files-roots sys decode_module roots laws
                      (sys.run second.1 go_path tmp_dir _).1 go_path (tmp_dir ∷ roots d)
                      (laws.kept_run second.1 go_path tmp_dir _ ∙ both) in
                  rw (vcs_list, made, again, list_in) (laws.removes _ tmp_dir (roots d) cleared).1
            ]
      ]
