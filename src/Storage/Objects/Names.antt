-- ===== src/Storage/Objects/Names.antt =====
-- The names under which Upload stores, read back by the catalogs.
use athens.Prelude.{
  ◌≡◌, ◌≢◌, refl, sym, ap, ◌∙◌, ℕ, Bool, true, false, List, [], ◌∷◌, ◌++◌, ◌==◌, text_eq, nat_eq,
  Text, text, text_beq_iff, length, length-append, append_assoc, is_empty, contains,
  contains-append, All, arith, Bool-cases, inl, inr, if◌then◌else◌,
}
use athens.Errors.{ok, has_prefix}
use athens.Paths.{AllPathParams}
use athens.Storage.Parallel.{File, info_file, mod_file, zip_file, ext, file_path}
use athens.Storage.Objects.{
  pieces, filepath_ext, has_suffix, trim_suffix, two_segments, module_version_from_path,
  parse_mod_ver, listed_objects,
}

pieces-plain : (s : Text) → contains s b'/' ≡ false → pieces (text "/@v/") 0 s ≡ s ∷ []
unfolding pieces has_prefix contains
pieces-plain [] h = refl
pieces-plain (c ∷ s) h = ground (arith, pieces-plain s)

pieces-append :
    (m s : Text)
    → contains m b'@' ≡ false
    → pieces (text "/@v/") 0 (m ++ (text "/@v/" ++ s)) ≡ m ∷ pieces (text "/@v/") 0 s
unfolding pieces has_prefix contains
pieces-append [] s h = refl
pieces-append (c ∷ []) s h = ground arith
pieces-append (c ∷ d ∷ m) s h = ground (arith, pieces-append (d ∷ m) s)

filepath_ext-file : (f : File) → filepath_ext (text "." ++ ext f) ≡ text "." ++ ext f
unfolding filepath_ext contains
filepath_ext-file info_file = refl
filepath_ext-file mod_file = refl
filepath_ext-file zip_file = refl

filepath_ext-append :
    (s : Text) (f : File) → filepath_ext (s ++ (text "." ++ ext f)) ≡ text "." ++ ext f
unfolding filepath_ext
filepath_ext-append [] f = filepath_ext-file f
filepath_ext-append (c ∷ s) f = rw (filepath_ext-append s f) refl

longer-differs : (c : ℕ) (s t : Text) → ((c ∷ (s ++ t)) == t) ≡ false
longer-differs c s t = elim (Bool-cases ((c ∷ (s ++ t)) == t)) [
  | inr differs ↦ differs
  | inl same ↦ absurd (
      omega (
        arith,
        ap (λ (u : Text). length u) ((text_beq_iff (c ∷ (s ++ t)) t).0 same),
        length-append s t,
      ))
]

trim_suffix_self : (t : Text) → trim_suffix t t ≡ []
unfolding trim_suffix
trim_suffix_self [] = refl
trim_suffix_self (c ∷ t) = rw ((text_beq_iff (c ∷ t) (c ∷ t)).1 refl) refl

trim_suffix-append : (s t : Text) → trim_suffix (s ++ t) t ≡ s
unfolding trim_suffix
trim_suffix-append [] t = trim_suffix_self t
trim_suffix-append (c ∷ s) t = rw (longer-differs c s t, trim_suffix-append s t) refl

contains-file :
    (s : Text) (f : File)
    → contains s b'/' ≡ false
    → contains (s ++ (text "." ++ ext f)) b'/' ≡ false
unfolding contains
contains-file s info_file h = contains-append s (text ".info") b'/' ∙ rw h refl
contains-file s mod_file h = contains-append s (text ".mod") b'/' ∙ rw h refl
contains-file s zip_file h = contains-append s (text ".zip") b'/' ∙ rw h refl

-- A module path without an at sign and a version without a slash are read back from the name of each
-- of the version's files.
pub module_version_from_path-file_path :
    (m v : Text) (f : File)
    → contains m b'@' ≡ false
    → contains v b'/' ≡ false
    → module_version_from_path (file_path m v f) ≡ (m, v)
unfolding module_version_from_path two_segments
module_version_from_path-file_path m v f in_module in_version =
    rw
      (
        pieces-append m (v ++ (text "." ++ ext f)) in_module,
        pieces-plain (v ++ (text "." ++ ext f)) (contains-file v f in_version),
        filepath_ext-append v f,
        trim_suffix-append v (text "." ++ ext f),
      )
      refl

has_suffix-append : (s t : Text) → has_suffix (s ++ t) t ≡ true
unfolding has_suffix
has_suffix-append [] [] = refl
has_suffix-append [] (d ∷ t) = rw ((text_beq_iff (d ∷ t) (d ∷ t)).1 refl) refl
has_suffix-append (c ∷ s) t = rw (longer-differs c s t, has_suffix-append s t) refl

abbrev last : Text → ℕ
last [] = 0
last (c ∷ []) = c
last (c ∷ d ∷ s) = last (d ∷ s)

last-suffix : (s : Text) (d : ℕ) (t : Text) → has_suffix s (d ∷ t) ≡ true → last s ≡ last (d ∷ t)
unfolding has_suffix
last-suffix [] d t h = absurd (ground arith)
last-suffix (c ∷ []) d t h = elim (Bool-cases ((c ∷ []) == (d ∷ t))) [
  | inl same ↦ ap last ((text_beq_iff (c ∷ []) (d ∷ t)).0 same)
  | inr differs ↦ absurd (ground arith)
]
last-suffix (c ∷ c' ∷ s) d t h = elim (Bool-cases ((c ∷ c' ∷ s) == (d ∷ t))) [
  | inl same ↦ ap last ((text_beq_iff (c ∷ c' ∷ s) (d ∷ t)).0 same)
  | inr differs ↦ last-suffix (c' ∷ s) d t (ground arith)
]

last-append : (s : Text) (d : ℕ) (t : Text) → last (s ++ (d ∷ t)) ≡ last (d ∷ t)
last-append [] d t = refl
last-append (c ∷ []) d t = refl
last-append (c ∷ c' ∷ s) d t = last-append (c' ∷ s) d t

abbrev is_info : File → Bool
is_info info_file = true
is_info _ = false

no_suffix :
    (s : Text) (c d : ℕ) (t u : Text)
    → (last (c ∷ t) ≢ last (d ∷ u))
    → has_suffix (s ++ (c ∷ t)) (d ∷ u) ≡ false
no_suffix s c d t u differ = elim (Bool-cases (has_suffix (s ++ (c ∷ t)) (d ∷ u))) [
  | inr differs ↦ differs
  | inl same ↦ absurd (differ (sym (last-append s c t) ∙ last-suffix (s ++ (c ∷ t)) d u same))
]

suffix_lem :
    (s : Text) (f : File) → has_suffix (s ++ (text "." ++ ext f)) (text ".info") ≡ is_info f
suffix_lem s info_file = has_suffix-append s (text ".info")
suffix_lem s mod_file =
    no_suffix s b'.' b'.' (text "mod") (text "info") (λ same. absurd (omega (arith, same)))
suffix_lem s zip_file =
    no_suffix s b'.' b'.' (text "zip") (text "info") (λ same. absurd (omega (arith, same)))

has_suffix-file_path :
    (m v : Text) (f : File) → has_suffix (file_path m v f) (text ".info") ≡ is_info f
has_suffix-file_path m v f =
    ap (λ (name : Text). has_suffix name (text ".info"))
      (sym (append_assoc m (text "/@v/" ++ v) (text "." ++ ext f)))
    ∙ suffix_lem (m ++ (text "/@v/" ++ v)) f

-- A version whose names can be read back: its module path is not empty and has no at sign, and the
-- version is not empty and has no slash.
abbrev pub IsReadable : AllPathParams → Type 0
IsReadable p =
    ((is_empty p.module_path ≡ false) × (contains p.module_path b'@' ≡ false))
    × ((is_empty p.version ≡ false) × (contains p.version b'/' ≡ false))

-- The names of some files of versions.
abbrev pub names_of : List (AllPathParams × File) → List Text
names_of [] = []
names_of ((p, f) ∷ files) = file_path p.module_path p.version f ∷ names_of files

-- The versions whose info file is among the files.
abbrev pub with_info : List (AllPathParams × File) → List AllPathParams
with_info [] = []
with_info ((p, f) ∷ files) = if is_info f then p ∷ with_info files else with_info files

parse_mod_ver-file_path :
    (op : Text) (p : AllPathParams) (f : File)
    → IsReadable p
    → parse_mod_ver op (file_path p.module_path p.version f) ≡ ok p
unfolding parse_mod_ver
parse_mod_ver-file_path op p f ((named, in_module), (versioned, in_version)) =
    rw
      (
        module_version_from_path-file_path p.module_path p.version f in_module in_version,
        named,
        versioned,
      )
      refl

-- Where a page of the objects holds the names of files that Upload stores, in any order and any
-- selection, of versions whose names can be read back, the catalog of it lists exactly the versions
-- whose info file is on the page, in the order of the page.
pub listed_objects-names_of :
    (op : Text) (files : List (AllPathParams × File))
    → All (λ file. IsReadable file.0) files
    → listed_objects op (names_of files) ≡ with_info files
unfolding listed_objects
listed_objects-names_of op [] h = refl
listed_objects-names_of op ((p, info_file) ∷ files) (readable, h) =
    rw
      (
        has_suffix-file_path p.module_path p.version info_file,
        parse_mod_ver-file_path op p info_file readable,
        listed_objects-names_of op files h,
      )
      refl
listed_objects-names_of op ((p, mod_file) ∷ files) (readable, h) =
    rw (has_suffix-file_path p.module_path p.version mod_file, listed_objects-names_of op files h)
      refl
listed_objects-names_of op ((p, zip_file) ∷ files) (readable, h) =
    rw (has_suffix-file_path p.module_path p.version zip_file, listed_objects-names_of op files h)
      refl
