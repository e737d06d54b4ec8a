-- ===== src/Fetching/Kinds.antt =====
-- The kinds of the errors of a fetch.
use athens.Prelude.{
  ◌≡◌, refl, ◌∙◌, ℕ, Option, none, some, [], ◌∷◌, ◌++◌, nat_eq, if◌then◌else◌, Text, text, is_empty,
  Bool-cases, Option-cases, inl, inr,
}
use athens.Errors.{
  Result-cases, GoError, ok, err, wrapped, kind, kind_unexpected, kind_not_found, kind_rate_limit,
  make_error, error_arg, string_arg, kind_arg, Fails, message,
}
use athens.Errors.Wrapping.{kind-make_error}
use athens.Storage.Fs.{join}
use athens.Stash.{fmt_mod_ver}
use athens.Fetching.{
  GoModule, Output, System, Decoder, is_limit_hit, get_repo_dir_name, trim_suffix_slash, downloaded,
  download_module, fetch_in, fetch,
}

-- The kind of the failure that the output of the command stands for, if it is one: an answer of the
-- command that it failed is a missing module, or the limit of GitHub; other failures keep their kind.
abbrev pub failed_kind : Decoder GoModule → Output → Option ℕ
failed_kind decode o = elim o.run_error [
  | some e ↦ elim (decode o.stdout) [
    | err bad ↦ some (kind e)
    | ok m ↦ some (if is_limit_hit m.error then kind_rate_limit else kind_not_found)
  ]
  | none ↦ elim (decode o.stdout) [
    | err bad ↦ some (kind bad)
    | ok m ↦ if is_empty m.error then none else some kind_unexpected
  ]
]

kind-error_arg : (op : Text) (e : GoError) → kind (make_error op (error_arg e ∷ [])) ≡ kind e
kind-error_arg op e = kind-make_error op (error_arg e ∷ [])

some-injective : (a b : ℕ) → some a ≡ some b → a ≡ b
some-injective a b h = cc

abbrev op : Text
op = text "module.downloadModule"

downloaded-Fails :
    (decode : Decoder GoModule) (o : Output) (k : ℕ)
    → failed_kind decode o ≡ some k
    → (e : GoError) × (downloaded decode o ≡ err e) × (kind e ≡ k)
unfolding downloaded kind
downloaded-Fails decode o k h = elim (Option-cases o.run_error) [
  | inr (e, failed) ↦ elim (Result-cases (decode o.stdout)) [
    | inr (bad, no_json) ↦ (
      make_error op (error_arg (wrapped (message e ++ text ": " ++ o.stderr) e) ∷ []),
      rw (downloaded, failed, no_json) refl,
      kind-error_arg op (wrapped (message e ++ text ": " ++ o.stderr) e)
          ∙ some-injective (kind e) k (rw (failed_kind, failed, no_json) at h),
    )
    | inl (m, json) ↦ elim (Bool-cases (is_limit_hit m.error)) [
      | inl limit ↦ (
        make_error op (string_arg m.error ∷ kind_arg kind_rate_limit ∷ []),
        rw (downloaded, failed, json, limit) refl,
        kind-make_error op (string_arg m.error ∷ kind_arg kind_rate_limit ∷ [])
            ∙ some-injective kind_rate_limit k (rw (failed_kind, failed, json, limit) at h),
      )
      | inr other ↦ (
        make_error op (string_arg m.error ∷ kind_arg kind_not_found ∷ []),
        rw (downloaded, failed, json, other) refl,
        kind-make_error op (string_arg m.error ∷ kind_arg kind_not_found ∷ [])
            ∙ some-injective kind_not_found k (rw (failed_kind, failed, json, other) at h),
      )
    ]
  ]
  | inl fine ↦ elim (Result-cases (decode o.stdout)) [
    | inr (bad, no_json) ↦ (
      make_error op (error_arg bad ∷ []),
      rw (downloaded, fine, no_json) refl,
      kind-error_arg op bad ∙ some-injective (kind bad) k (rw (failed_kind, fine, no_json) at h),
    )
    | inl (m, json) ↦ elim (Bool-cases (is_empty m.error)) [
      | inl clean ↦ absurd (cc (rw (failed_kind, fine, json, clean) at h))
      | inr broken ↦ (
        make_error op (string_arg m.error ∷ []),
        rw (downloaded, fine, json, broken) refl,
        kind-make_error op (string_arg m.error ∷ [])
            ∙ some-injective kind_unexpected k (rw (failed_kind, fine, json, broken) at h),
      )
    ]
  ]
]

module _ {D : Type 0} (sys : System D) (decode : Decoder GoModule) where
  -- The output of the command that a fetch in a directory runs.
  abbrev pub output_in : Text → D → Text → Text → Output
  output_in root d mod_path ver =
      let repo = join (join root (text "src")) (get_repo_dir_name mod_path ver) in
      (sys.run (sys.mkdir_all d repo).1 root repo (
        text "mod"
        ∷ text "download"
        ∷ text "-json"
        ∷ fmt_mod_ver (trim_suffix_slash mod_path) ver
        ∷ [])).0

  -- A fetch whose directories are made, and whose command fails or gives an answer that is no module:
  -- the error has kind 429 where the command failed and its answer tells of the limit of GitHub, 404
  -- where it failed with another answer, 500 where it did not fail and its answer tells of an error,
  -- and the kind of the failure where there is no answer to read.
  pub fetch-Fails :
      (go_get_dir root : Text) (d : D) (mod_path ver : Text) (k : ℕ)
      → (sys.temp_dir d go_get_dir).0 ≡ ok root
      → (sys.mkdir_all
          (sys.temp_dir d go_get_dir).1
          (join (join root (text "src")) (get_repo_dir_name mod_path ver))).0
        ≡ none
      → failed_kind decode (output_in root (sys.temp_dir d go_get_dir).1 mod_path ver) ≡ some k
      → Fails (fetch sys decode go_get_dir d mod_path ver).0 k
  unfolding fetch fetch_in download_module
  fetch-Fails go_get_dir root d mod_path ver k made repo_made h =
      let (e, failed, same) =
        downloaded-Fails decode (output_in root (sys.temp_dir d go_get_dir).1 mod_path ver) k h in
      rw (fetch, made, fetch_in, repo_made, download_module, failed)
        (kind-error_arg (text "goGetFetcher.Fetch") e ∙ same)
