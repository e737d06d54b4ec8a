-- ===== src/Fetching/Tests.antt =====
-- The theorems on a fetch at concrete inputs.
use athens.Prelude.{
  ◌≡◌, refl, ap, ◌⊎◌, none, some, List, [], ◌∷◌, ◌==◌, text_eq, text_beq, text_beq_iff,
  if◌then◌else◌, Text, text,
}
use athens.Errors.{GoError, Result, ok, err, plain, Fails}
use athens.Fetching.{GoModule, Output, System, Fetched, fetch, close_zip, read_module, is_limit_hit}
use athens.Fetching.Kinds.{fetch-Fails}
use athens.Fetching.Roots.{HasRoots, fetch-roots}

-- A disk that has temporary directories; every file can be read.
abbrev Disk : Type 0
Disk = List Text

abbrev remove : Disk → Text → Disk
remove [] root = []
remove (r ∷ rs) root = let others = remove rs root in if r == root then rs else r ∷ others

abbrev temp_root : Text
temp_root = text "/tmp/athens1"

abbrev sys : Output → System Disk
sys output = record {
  temp_dir = λ d dir. (ok temp_root, temp_root ∷ d);
  mkdir_all = λ d dir. (none, d);
  read_file = λ d path. ok path;
  chmod_all = λ d root. (none, d);
  remove_all = λ d root. (none, remove d root);
  run = λ d go_path dir args. (output, d);
}

abbrev decode_json : Text → Result GoModule
decode_json [] = err (plain (text "EOF"))
decode_json (c ∷ error) = ok record {
  version = text "v1.0.0";
  error = error;
  info = text "i";
  go_mod = text "m";
  zip = text "z";
}

abbrev fine : Output
fine = record { run_error = none; stdout = text "{"; stderr = [] }

abbrev limited : Output
limited = record {
  run_error = some (plain (text "exit status 1"));
  stdout = text "{403 response from api.github.com";
  stderr = [];
}

abbrev text_of : Result Text → Text
text_of (ok s) = s
text_of (err e) = []

sys-HasRoots : HasRoots (sys fine) (λ d. d)
unfolding text_beq
sys-HasRoots = record {
  made = λ d dir root h. ap (λ r. text_of r ∷ d) h;
  not_made = λ d dir e h. absurd (cc);
  kept_mkdir = λ d dir. refl;
  kept_run = λ d go_path dir args. refl;
  kept_chmod = λ d dir. refl;
  walks = λ d root others h. refl;
  removes = λ d root others h. (refl, rw (h, (text_beq_iff root root).1 refl) refl);
}

fetch-roots_example :
    ((v : Fetched) × ((fetch (sys fine) decode_json (text "/tmp") [] (text "m") (text "v1")).0
        ≡ ok v)
      × ((fetch (sys fine) decode_json (text "/tmp") [] (text "m") (text "v1")).1 ≡ v.go_path ∷ [])
      × ((close_zip
            (sys fine)
            decode_json
            (fetch (sys fine) decode_json (text "/tmp") [] (text "m") (text "v1")).1
            v).1
          ≡ []))
    ⊎ (((e : GoError) × ((fetch (sys fine) decode_json (text "/tmp") [] (text "m") (text "v1")).0
            ≡ err e)
          × ((fetch (sys fine) decode_json (text "/tmp") [] (text "m") (text "v1")).1 ≡ []))
        ⊎ ((root : Text) × (m : GoModule) × (e : GoError) × (read_module
                (sys fine)
                decode_json
                (fetch (sys fine) decode_json (text "/tmp") [] (text "m") (text "v1")).1
                root
                m
              ≡ err e)
            × ((fetch (sys fine) decode_json (text "/tmp") [] (text "m") (text "v1")).0 ≡ err e)
            × ((fetch (sys fine) decode_json (text "/tmp") [] (text "m") (text "v1")).1
                ≡ root ∷ [])))
fetch-roots_example =
    fetch-roots (sys fine) decode_json (λ d. d) sys-HasRoots (text "/tmp") [] (text "m") (text "v1")

fetch-Fails_example :
    Fails (fetch (sys limited) decode_json (text "/tmp") [] (text "m") (text "v1")).0 429
unfolding is_limit_hit athens.Errors.contains_text athens.Errors.has_prefix
fetch-Fails_example =
    fetch-Fails (sys limited) decode_json (text "/tmp") temp_root [] (text "m") (text "v1") 429 refl
      refl refl
