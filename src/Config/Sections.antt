-- ===== src/Config/Sections.antt =====
-- The types of storages and indexes, and their sections of the configuration.
use athens.Prelude.{
  ◌≡◌, refl, Bool, true, false, ◌||◌, Option, none, some, List, [], ◌∷◌, ◌==◌, text_eq, text_beq,
  text_beq_iff, Text, text, is_empty, lookup, arith, Bool-cases, inl, inr,
}
use athens.Errors.{GoError}
use athens.Config.{
  Config, Section, mongo, disk, minio, gcp, s3, azure_blob, external, mysql, postgres, Validator,
  validate_storage, validate_index,
}

abbrev pub storage_types : List Text
storage_types =
    text "memory"
    ∷ text "mongo"
    ∷ text "disk"
    ∷ text "minio"
    ∷ text "gcp"
    ∷ text "s3"
    ∷ text "azureblob"
    ∷ text "external"
    ∷ []

abbrev pub index_types : List Text
index_types = text "none" ∷ text "memory" ∷ text "mysql" ∷ text "postgres" ∷ []

abbrev pub is_one_of : List Text → Text → Bool
is_one_of [] asked = false
is_one_of (name ∷ names) asked = asked == name || is_one_of names asked

pub validate_storage-known :
    (v : Validator) (c : Config)
    → validate_storage v c ≡ none
    → is_one_of storage_types c.storage_type ≡ true
unfolding validate_storage
validate_storage-known v c h = ground arith

pub validate_index-known :
    (v : Validator) (c : Config)
    → validate_index v c ≡ none
    → (is_empty c.index_type || is_one_of index_types c.index_type) ≡ true
unfolding validate_index
validate_index-known v c h = ground arith

-- The section that the validator checks for each type that has one.
abbrev pub storage_sections : List (Text × Section)
storage_sections =
    (text "mongo", mongo)
    ∷ (text "disk", disk)
    ∷ (text "minio", minio)
    ∷ (text "gcp", gcp)
    ∷ (text "s3", s3)
    ∷ (text "azureblob", azure_blob)
    ∷ (text "external", external)
    ∷ []

abbrev pub index_sections : List (Text × Section)
index_sections = (text "mysql", mysql) ∷ (text "postgres", postgres) ∷ []

-- What the validator says of a section, if there is one.
abbrev pub section_error : Validator → Config → Option Section → Option GoError
section_error v c none = none
section_error v c (some section) = v.section c section

with_section :
    (v : Validator) (c : Config)
    → (c.storage_type == text "memory") ≡ false
    → validate_storage v c ≡ none
    → section_error v c (lookup storage_sections c.storage_type) ≡ none
unfolding validate_storage lookup
with_section v c other h = ground arith

pub validate_storage-section :
    (v : Validator) (c : Config)
    → validate_storage v c ≡ none
    → section_error v c (lookup storage_sections c.storage_type) ≡ none
unfolding validate_storage lookup text_beq
validate_storage-section v c h = elim (Bool-cases (c.storage_type == text "memory")) [
  | inl same ↦ rw ((text_beq_iff c.storage_type (text "memory")).0 same) refl
  | inr other ↦ with_section v c other h
]

is_empty-[] : (s : Text) → is_empty s ≡ true → s ≡ []
is_empty-[] [] h = refl
is_empty-[] (c ∷ s) h = absurd (ground arith)

-- The types of an index without a section.
no_section :
    (asked : Text)
    → (is_empty asked || (asked == text "none" || asked == text "memory")) ≡ true
    → lookup index_sections asked ≡ none
unfolding lookup text_beq
no_section asked h = elim (Bool-cases (asked == text "none")) [
  | inl same ↦ rw ((text_beq_iff asked (text "none")).0 same) refl
  | inr not_none ↦ elim (Bool-cases (asked == text "memory")) [
    | inl same ↦ rw ((text_beq_iff asked (text "memory")).0 same) refl
    | inr not_memory ↦ rw (is_empty-[] asked (ground arith)) refl
  ]
]

pub validate_index-section :
    (v : Validator) (c : Config)
    → validate_index v c ≡ none
    → section_error v c (lookup index_sections c.index_type) ≡ none
unfolding validate_index lookup
validate_index-section v c h = ground (arith, no_section c.index_type)
