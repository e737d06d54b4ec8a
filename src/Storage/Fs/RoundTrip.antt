-- ===== src/Storage/Fs/RoundTrip.antt =====
-- What is saved is read back.
use athens.Prelude.{
  ℕ, ◌≡◌, ◌≢◌, refl, sym, ap, ◌∙◌, inl, inr, none, [], ◌∷◌, ◌++◌, Text, text, arith, Option-cases,
}
use athens.Errors.{GoError, ok, err, kind, kind_not_found, make_error}
use athens.Storage.{Version}
use athens.Storage.Fs.{
  FileSystem, join, version_location, read_version, fs_info, fs_go_mod, fs_zip, save_info, save_zip,
  save_go_mod, fs_save,
}

last : ℕ → Text → ℕ
last d [] = d
last d (c ∷ s) = last c s

last-append : (d : ℕ) (s : Text) (c : ℕ) (t : Text) → last d (s ++ c ∷ t) ≡ last c t
unfolding last
last-append d [] c t = refl
last-append d (b ∷ s) c t = last-append b s c t

last-join : (dir a : Text) (c : ℕ) (b : Text) → last 0 (join dir (a ++ c ∷ b)) ≡ last c b
unfolding join
last-join dir a c b = last-append 0 dir b'/' (a ++ c ∷ b) ∙ last-append b'/' a c b

-- The three names in a directory are different, whatever the version is.
join-ne :
    (dir a : Text) (c : ℕ) (b : Text) (d : ℕ) (s t : Text)
    → last c b ≢ last d t
    → join dir (a ++ c ∷ b) ≢ join dir (s ++ d ∷ t)
join-ne dir a c b d s t differ e =
    differ (sym (last-join dir a c b) ∙ ap (last 0) e ∙ last-join dir s d t)

module _ {F : Type 0} (fs : FileSystem F)
    (read_written : (f : F) (path content : Text)
      → (fs.write_file f path content).0 ≡ none
      → fs.read_file (fs.write_file f path content).1 path ≡ ok content)
    (read_kept : (f : F) (path content other : Text)
      → path ≢ other
      → (fs.write_file f path content).0 ≡ none
      → fs.read_file (fs.write_file f path content).1 other ≡ fs.read_file f other)
    (root mod_path : Text) (v : Version) (dir : Text) where
  info_path : Text
  info_path = join dir (v.semver ++ text ".info")

  save_info-reads :
      (f : F)
      → (save_info fs root f dir v.semver v).0 ≡ none
      → (fs.read_file (save_info fs root f dir v.semver v).1 info_path ≡ ok v.info)
        × ((other : Text)
            → info_path ≢ other
            → fs.read_file (save_info fs root f dir v.semver v).1 other ≡ fs.read_file f other)
  unfolding save_info info_path
  save_info-reads f h = elim (Option-cases (fs.write_file f info_path v.info).0) [
    | inl fine ↦ (
      read_written f info_path v.info fine,
      λ other ne. read_kept f info_path v.info other ne fine,
    )
    | inr (e, bad) ↦ absurd (ground arith)
  ]

  zip_path : Text
  zip_path = join dir (text "source.zip")

  go_mod_path : Text
  go_mod_path = join dir (text "go.mod")

  info-ne-zip : info_path ≢ zip_path
  unfolding info_path zip_path last
  info-ne-zip =
      join-ne dir v.semver b'.' (text "info") b's' [] (text "ource.zip") (λ e. omega arith)

  info-ne-go_mod : info_path ≢ go_mod_path
  unfolding info_path go_mod_path last
  info-ne-go_mod = join-ne dir v.semver b'.' (text "info") b'g' [] (text "o.mod") (λ e. omega arith)

  zip-ne-go_mod : zip_path ≢ go_mod_path
  unfolding zip_path go_mod_path last
  zip-ne-go_mod = join-ne dir [] b's' (text "ource.zip") b'g' [] (text "o.mod") (λ e. omega arith)

  save_zip-reads :
      (f : F)
      → (save_zip fs root f dir mod_path v.semver v).0 ≡ none
      → (fs.read_file (save_zip fs root f dir mod_path v.semver v).1 info_path ≡ ok v.info)
        × (fs.read_file (save_zip fs root f dir mod_path v.semver v).1 zip_path ≡ ok v.zip)
        × (fs.read_file (save_zip fs root f dir mod_path v.semver v).1 go_mod_path
            ≡ fs.read_file f go_mod_path)
  unfolding save_zip zip_path
  save_zip-reads f h = elim (Option-cases (fs.write_file f zip_path v.zip).0) [
    | inr (e, bad) ↦ absurd (ground arith)
    | inl fine ↦
        let after : save_zip fs root f dir mod_path v.semver v
            ≡ save_info fs root (fs.write_file f zip_path v.zip).1 dir v.semver v =
          rw (save_zip, fine) refl in
        let (info_there, kept) =
          save_info-reads (fs.write_file f zip_path v.zip).1 (rw after at h) in
        rw after (
          info_there,
          kept zip_path info-ne-zip ∙ read_written f zip_path v.zip fine,
          kept go_mod_path info-ne-go_mod
              ∙ read_kept f zip_path v.zip go_mod_path zip-ne-go_mod fine,
        )
  ]

  save_go_mod-reads :
      (f : F)
      → (save_go_mod fs root f dir mod_path v.semver v).0 ≡ none
      → (fs.read_file (save_go_mod fs root f dir mod_path v.semver v).1 info_path ≡ ok v.info)
        × (fs.read_file (save_go_mod fs root f dir mod_path v.semver v).1 zip_path ≡ ok v.zip)
        × (fs.read_file (save_go_mod fs root f dir mod_path v.semver v).1 go_mod_path ≡ ok v.go_mod)
  unfolding save_go_mod go_mod_path
  save_go_mod-reads f h = elim (Option-cases (fs.write_file f go_mod_path v.go_mod).0) [
    | inr (e, bad) ↦ absurd (ground arith)
    | inl fine ↦
        let after : save_go_mod fs root f dir mod_path v.semver v
            ≡ save_zip fs root (fs.write_file f go_mod_path v.go_mod).1 dir mod_path v.semver v =
          rw (save_go_mod, fine) refl in
        let (info_there, zip_there, kept) =
          save_zip-reads (fs.write_file f go_mod_path v.go_mod).1 (rw after at h) in
        rw after (info_there, zip_there, kept ∙ read_written f go_mod_path v.go_mod fine)
  ]

fs_zip-content :
    {F : Type 0} (fs : FileSystem F) (root : Text) (f : F) (mod_path version content : Text)
    → fs.read_file f (join (version_location root mod_path version) (text "source.zip"))
      ≡ ok content
    → fs.stat f (join (version_location root mod_path version) (text "source.zip")) ≡ none
    → fs_zip fs root f mod_path version ≡ ok content
unfolding fs_zip read_version
fs_zip-content fs root f mod_path version content there sized =
    rw (fs_zip, read_version, there) (rw sized refl)

-- A file system that reads a file as it was last written, keeps the other files, and gives the size of
-- a file that it reads. After a save
-- without an error, the info, the go.mod and the archive of the version are read as they were saved.
pub fs_save-reads :
    {F : Type 0} (fs : FileSystem F)
    (read_written : (f : F) (path content : Text)
      → (fs.write_file f path content).0 ≡ none
      → fs.read_file (fs.write_file f path content).1 path ≡ ok content)
    (read_kept : (f : F) (path content other : Text)
      → path ≢ other
      → (fs.write_file f path content).0 ≡ none
      → fs.read_file (fs.write_file f path content).1 other ≡ fs.read_file f other)
    (sized : (f : F) (path content : Text)
      → fs.read_file f path ≡ ok content
      → fs.stat f path ≡ none)
    (root : Text) (f : F) (mod_path : Text) (v : Version)
    → (fs_save fs root f mod_path v).0 ≡ none
    → (fs_info fs root (fs_save fs root f mod_path v).1 mod_path v.semver ≡ ok v.info)
      × (fs_zip fs root (fs_save fs root f mod_path v).1 mod_path v.semver ≡ ok v.zip)
      × (fs_go_mod fs root (fs_save fs root f mod_path v).1 mod_path v.semver ≡ ok v.go_mod)
unfolding fs_save fs_info fs_zip fs_go_mod info_path zip_path go_mod_path
fs_save-reads fs read_written read_kept sized root f mod_path v h =
    let dir : Text = version_location root mod_path v.semver in
    elim (Option-cases (fs.mkdir_all f dir).0) [
      | inr (e, bad) ↦ absurd (ground arith)
      | inl fine ↦
          let after : fs_save fs root f mod_path v
              ≡ save_go_mod fs root (fs.mkdir_all f dir).1 dir mod_path v.semver v =
            rw (fs_save, fine) refl in
          let (info_there, zip_there, mod_there) =
            save_go_mod-reads fs read_written read_kept root mod_path v dir (fs.mkdir_all f dir).1
              (rw after at h) in
          rw (after, read_version, info_there, read_version, mod_there)
            (
              refl,
              fs_zip-content fs root _ mod_path v.semver v.zip zip_there
                  (sized _ _ v.zip zip_there),
              refl,
            )
    ]

-- A read of the info fails as not found only.
pub fs_info-kind :
    {F : Type 0} (fs : FileSystem F) (root : Text) (f : F) (mod_path version : Text) (e : GoError)
    → fs_info fs root f mod_path version ≡ err e
    → kind e ≡ kind_not_found
unfolding fs_info read_version make_error kind
fs_info-kind fs root f mod_path version e h = ground arith
