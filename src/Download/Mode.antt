-- ===== src/Download/Mode.antt =====
-- pkg/download/mode/mode.go: what to do when a module is not in storage, by the module's path.
pub mod Selection
use athens.Prelude.{
  Bool, true, false, ◌&&◌, not, Option, none, some, List, [], ◌∷◌, ◌==◌, text_eq, if◌then◌else◌,
  Text, text, is_empty, strip_prefix,
}
use athens.Errors.{
  GoError, Result, ok, err, make_error, error_arg, string_arg, kind_arg, kind_bad_request, plain,
}
use athens.Errors
use athens.Paths.{matches_pattern}

-- A mode is a string in the program; `unknown` is any that is none of the five constants.
pub data Mode : Type 0 where
  sync async redirect async_redirect nothing : Mode
  unknown : Text → Mode

-- The mode that a configured string is; `nothing` is the constant None.
unfoldable pub mode_of : Text → Mode
mode_of m =
    if m == text "sync"
    then sync
    else if m == text "async"
    then async
    else if m == text "redirect"
    then redirect
    else if m == text "async_redirect"
    then async_redirect
    else if m == text "none"
    then nothing
    else unknown m

abbrev pub is_known : Mode → Bool
is_known (unknown m) = false
is_known _ = true

pub record DownloadPath : Type 0 where
  pub pattern_text : Text
  pub mode : Mode
  pub download_url : Text

pub record DownloadFile : Type 0 where
  pub mode : Mode
  pub download_url : Text
  pub paths : List DownloadPath

validate_paths : List DownloadPath → Option GoError
validate_paths [] = none
validate_paths (p ∷ ps) =
    if is_known p.mode
    then validate_paths ps
    else some
        (make_error (text "downloadMode.validate") (string_arg (text "unrecognized mode") ∷ []))

unfoldable pub validate : DownloadFile → Option GoError
unfolding validate_paths
validate d = validate_paths d.paths

-- The file system, base64 and the HCL library: an HCL file is read into a `DownloadFile`, or refused.
pub record Sources : Type 0 where
  pub read_file : Text → Result Text
  pub decode_base64 : Text → Result Text
  pub decode_hcl : Text → Result DownloadFile

module _ (io : Sources) where
  parse_file : Text → Result DownloadFile
  unfolding validate
  parse_file bytes = elim (io.decode_hcl bytes) [
    | err e ↦ err (make_error (text "downloadmode.parseFile") (string_arg (Errors.message e) ∷ []))
    | ok df ↦ elim (validate df) [
      | some e ↦ err (make_error (text "downloadmode.parseFile") (error_arg e ∷ []))
      | none ↦ ok df
    ]
  ]

  parse_read : Result Text → Result DownloadFile
  unfolding parse_file
  parse_read (err e) = err e
  parse_read (ok bytes) = parse_file bytes

  plain_mode : Text → Text → Result DownloadFile
  plain_mode m url =
      if is_known (mode_of m)
      then ok (record { mode = mode_of m; download_url = url; paths = [] })
      else err (
          make_error (text "downloadMode.NewFile")
            (kind_arg kind_bad_request ∷ string_arg (text "unrecognized download mode") ∷ []))

  pub new_file : Text → Text → Result DownloadFile
  unfolding parse_read plain_mode
  new_file m url =
      if is_empty m
      then err (
          make_error (text "downloadMode.NewFile")
            (string_arg (text "download mode is not set") ∷ []))
      else elim (strip_prefix (text "file:") m) [
        | some path ↦ parse_read (io.read_file path)
        | none ↦ elim (strip_prefix (text "custom:") m) [
          | some encoded ↦ parse_read (io.decode_base64 encoded)
          | none ↦ plain_mode m url
        ]
      ]

match_paths : Mode → List DownloadPath → Text → Mode
match_paths default [] mod_path = default
match_paths default (p ∷ ps) mod_path =
    if matches_pattern p.pattern_text mod_path then p.mode else match_paths default ps mod_path

unfoldable pub match_mode : DownloadFile → Text → Mode
unfolding match_paths
match_mode d mod_path = match_paths d.mode d.paths mod_path

url_from : Text → List DownloadPath → Text → Text
url_from default [] mod_path = default
url_from default (p ∷ ps) mod_path =
    if matches_pattern p.pattern_text mod_path && not (is_empty p.download_url)
    then p.download_url
    else url_from default ps mod_path

unfoldable pub url : DownloadFile → Text → Text
unfolding url_from
url d mod_path = url_from d.download_url d.paths mod_path
