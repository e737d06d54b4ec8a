-- ===== src/Download/Mode/Selection.antt =====
-- Which path of a mode file decides, and which modes a file can hold.
use athens.Prelude.{
  ◌≡◌, refl, true, false, none, List, [], ◌∷◌, ◌++◌, text_eq, Text, All, arith, ◌⊎◌, inr,
}
use athens.Paths.{matches_pattern}
use athens.Download.Mode.{
  Mode, is_known, DownloadPath, DownloadFile, validate, validate_paths, match_paths, match_mode,
}

abbrev pub Misses : Text → DownloadPath → Type 0
Misses mod_path p = matches_pattern p.pattern_text mod_path ≡ false

match_paths-first :
    (default : Mode) (before after : List DownloadPath) (p : DownloadPath) (mod_path : Text)
    → All (Misses mod_path) before
    → matches_pattern p.pattern_text mod_path ≡ true
    → match_paths default (before ++ p ∷ after) mod_path ≡ p.mode
unfolding match_paths
match_paths-first default [] after p mod_path h hit = rw hit
match_paths-first default (q ∷ before) after p mod_path (miss, h) hit =
    rw miss (match_paths-first default before after p mod_path h hit)

match_paths-default :
    (default : Mode) (ps : List DownloadPath) (mod_path : Text)
    → All (Misses mod_path) ps
    → match_paths default ps mod_path ≡ default
unfolding match_paths
match_paths-default default [] mod_path h = refl
match_paths-default default (p ∷ ps) mod_path (miss, h) =
    rw miss (match_paths-default default ps mod_path h)

-- Where no pattern matches the module, the file's own mode applies.
pub match_mode-default :
    (d : DownloadFile) (mod_path : Text)
    → All (Misses mod_path) d.paths
    → match_mode d mod_path ≡ d.mode
unfolding match_mode
match_mode-default d mod_path = match_paths-default d.mode d.paths mod_path

-- The first path whose pattern matches the module decides its mode, whatever stands behind it and
-- whatever the file's own mode is.
pub match_mode-first :
    (d : DownloadFile) (mod_path : Text) (before after : List DownloadPath) (p : DownloadPath)
    → d.paths ≡ before ++ p ∷ after
    → All (Misses mod_path) before
    → matches_pattern p.pattern_text mod_path ≡ true
    → match_mode d mod_path ≡ p.mode
unfolding match_mode
match_mode-first d mod_path before after p e h hit =
    rw e (match_paths-first d.mode before after p mod_path h hit)

match_paths-known :
    (default : Mode) (ps : List DownloadPath) (mod_path : Text)
    → validate_paths ps ≡ none
    → (is_known (match_paths default ps mod_path) ≡ true)
      ⊎ (match_paths default ps mod_path ≡ default)
unfolding match_paths validate_paths
match_paths-known default [] mod_path h = inr refl
match_paths-known default (p ∷ ps) mod_path h =
    ground (arith, match_paths-known default ps mod_path)

-- Where a mode file is accepted, a module's mode is one of the five constants or the file's own
-- mode, which `validate` does not look at.
match_mode-known :
    (d : DownloadFile) (mod_path : Text)
    → validate d ≡ none
    → (is_known (match_mode d mod_path) ≡ true) ⊎ (match_mode d mod_path ≡ d.mode)
unfolding match_mode validate
match_mode-known d mod_path h = match_paths-known d.mode d.paths mod_path h
