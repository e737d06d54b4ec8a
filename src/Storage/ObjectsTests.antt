-- ===== src/Storage/ObjectsTests.antt =====
-- Runs of the catalogs of objects, and the theorems about them at concrete pages.
use athens.Prelude.{
  ◌≡◌, refl, ap, true, false, none, some, List, [], ◌∷◌, Text, text, text_beq, contains, is_empty,
  All, arith,
}
use athens.Errors.{Result, ok, err}
use athens.Paths.{AllPathParams}
use athens.Storage.Parallel.{File, info_file, mod_file, zip_file}
use athens.Storage.Objects.{module_version_from_path, listed_objects}
use athens.Storage.Objects.Names.{listed_objects-names_of, names_of, with_info, IsReadable}
use athens.Storage.Objects.Rounds.{Listing, s3_catalog}
use athens.Storage.Objects.Rounds.Ends.{EndsWithin, s3_catalog-ends, s3_catalog-stuck}

module_version_from_path_test :
    module_version_from_path (text "github.com/gomods/a/@v/v1.2.0976.info")
    ≡ (text "github.com/gomods/a", text "v1.2.0976")
unfolding module_version_from_path text_beq
module_version_from_path_test = refl

no_version_test : module_version_from_path (text "athens/v1.0.info") ≡ ([], [])
unfolding module_version_from_path
no_version_test = refl

abbrev first_version : AllPathParams
first_version = record { module_path = text "m"; version = text "v1.0.0" }

abbrev second_version : AllPathParams
second_version = record { module_path = text "n/x"; version = text "v2.1.0" }

abbrev files : List (AllPathParams × File)
files =
    (first_version, info_file)
    ∷ (first_version, mod_file)
    ∷ (second_version, zip_file)
    ∷ (second_version, info_file)
    ∷ []

files-IsReadable : All (λ file. IsReadable file.0) files
unfolding contains
files-IsReadable =
    let r : IsReadable first_version = ((refl, refl), (refl, refl)) in
    let q : IsReadable second_version = ((refl, refl), (refl, refl)) in (r, (r, (q, (q, tt))))

listed_objects-names_of_example :
    listed_objects (text "gcp.parseS3Key") (names_of files) ≡ with_info files
listed_objects-names_of_example =
    listed_objects-names_of (text "gcp.parseS3Key") files files-IsReadable

abbrev first_page : Listing
first_page = record {
  contents = text "m/@v/v1.info" ∷ text "m/@v/v1.mod" ∷ [];
  is_truncated = true;
}

abbrev last_page : Listing
last_page = record {
  contents = text "m/@v/v1.zip" ∷ text "n/@v/v2.info" ∷ [];
  is_truncated = false;
}

abbrev bucket : Text → Result Listing
bucket [] = ok first_page
bucket (c ∷ token) = ok last_page

s3_catalog_test :
    s3_catalog 4 bucket [] 3
    ≡ some (
        ok (
          record { module_path = text "m"; version = text "v1" }
              ∷ record { module_path = text "n"; version = text "v2" }
              ∷ [],
          [],
        ))
unfolding s3_catalog text_beq
s3_catalog_test = refl

abbrev page_of : Result Listing → Listing
page_of (ok loo) = loo
page_of (err e) = last_page

bucket-lists :
    (token : Text) (loo : Listing)
    → bucket token ≡ ok loo
    → loo.is_truncated ≡ true
    → is_empty (listed_objects (text "s3.parseS3Key") loo.contents) ≡ false
unfolding listed_objects text_beq
bucket-lists [] loo same more = rw (← ap page_of same) refl
bucket-lists (c ∷ token) loo same more =
    absurd (ground (arith, ap (λ r. (page_of r).is_truncated) same))

s3_catalog-ends_example : EndsWithin 3 (s3_catalog 4 bucket [] 3)
s3_catalog-ends_example = s3_catalog-ends bucket bucket-lists 4 [] 3 (omega arith)

abbrev log_page : Listing
log_page = record { contents = text "logs/1" ∷ text "logs/2" ∷ []; is_truncated = true }

abbrev shared_bucket : Text → Result Listing
shared_bucket token = ok log_page

nothing_listed : is_empty (listed_objects (text "s3.parseS3Key") log_page.contents) ≡ true
unfolding listed_objects text_beq
nothing_listed = refl

s3_catalog-stuck_example : s3_catalog 9 shared_bucket [] 2 ≡ none
s3_catalog-stuck_example =
    s3_catalog-stuck shared_bucket log_page 9 2 refl refl nothing_listed (omega arith)
