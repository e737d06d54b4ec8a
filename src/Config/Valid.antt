-- ===== src/Config/Valid.antt =====
-- What a configuration that was read has.
use athens.Prelude.{
  ◌≡◌, refl, sym, ap, ◌∙◌, ℕ, true, false, ◌||◌, ◌&&◌, not, none, some, List, [], ◌∷◌, ◌==◌, nat_eq,
  text_eq, Text, text, is_empty, lookup, Bool-cases, Option-cases, inl, inr,
}
use athens.Errors.{Result-cases, ok}
use athens.Filter.Qualifiers.{atoi}
use athens.Config.Sections.{
  storage_types, index_types, is_one_of, storage_sections, index_sections, section_error,
  validate_storage-known, validate_index-known, validate_storage-section, validate_index-section,
}
use athens.Config.{
  Config, Validator, Source, ensure_port_format, validate_storage, validate_index, validate_config,
  is_too_open, check_file_perms, env_port, or_default_port, env_override, checked,
  parse_config_file,
}

-- A port with a colon before it is no number.
ensure_port_format-colon : (s : Text) → ensure_port_format (b':' ∷ s) ≡ b':' ∷ s
unfolding ensure_port_format atoi
ensure_port_format-colon s = refl

ensure_port_format-twice :
    (s : Text) → ensure_port_format (ensure_port_format s) ≡ ensure_port_format s
unfolding ensure_port_format
ensure_port_format-twice s = elim (Option-cases (atoi s)) [
  | inl other ↦
      let same : ensure_port_format s ≡ s = rw (ensure_port_format, other) refl in
      ap ensure_port_format same
  | inr (n, number) ↦
      let colon : ensure_port_format s ≡ b':' ∷ s = rw (ensure_port_format, number) refl in
      ap ensure_port_format colon ∙ ensure_port_format-colon s ∙ sym colon
]

port_filled : (port : Text) → is_empty (ensure_port_format (or_default_port port)) ≡ false
unfolding ensure_port_format
port_filled [] = refl
port_filled (c ∷ s) = elim (Option-cases (atoi (c ∷ s))) [
  | inl other ↦ rw (ensure_port_format, other) refl
  | inr (n, number) ↦ rw (ensure_port_format, number) refl
]

number_injective : (a b : ℕ) → some a ≡ some b → a ≡ b
number_injective a b h = cc

ok-injective : (a b : Config) → ok a ≡ ok b → a ≡ b
ok-injective a b h = cc

checked-ok :
    (s : Source) (f : Text) (c d : Config)
    → checked s f c ≡ ok d
    → (c ≡ d)
      × (validate_config s.validator c ≡ none)
      × (c.go_env == text "production" ≡ true
          → check_file_perms s.stat s.windows (f ∷ c.filter_file ∷ []) ≡ none)
unfolding checked
checked-ok s f c d h = elim (Bool-cases (c.go_env == text "production")) [
  | inl production ↦
      elim (Option-cases (check_file_perms s.stat s.windows (f ∷ c.filter_file ∷ []))) [
        | inr (e, bad) ↦ absurd (cc (rw (checked, production, bad) at h))
        | inl fine ↦ elim (Option-cases (validate_config s.validator c)) [
          | inr (e, bad) ↦ absurd (cc (rw (checked, production, fine, bad) at h))
          | inl valid ↦
              (ok-injective c d (rw (checked, production, fine, valid) at h), valid, λ _. fine)
        ]
      ]
  | inr other ↦ elim (Option-cases (validate_config s.validator c)) [
    | inr (e, bad) ↦ absurd (cc (rw (checked, other, bad) at h))
    | inl valid ↦ (ok-injective c d (rw (checked, other, valid) at h), valid, λ same. absurd (cc))
  ]
]

validate_config-none :
    (v : Validator) (c : Config)
    → validate_config v c ≡ none
    → (v.fields c ≡ none) × (validate_storage v c ≡ none) × (validate_index v c ≡ none)
unfolding validate_config
validate_config-none v c h = elim (Option-cases (v.fields c)) [
  | inr (e, bad) ↦ absurd (cc (rw (validate_config, bad) at h))
  | inl fine ↦ elim (Option-cases (validate_storage v c)) [
    | inr (e, bad) ↦ absurd (cc (rw (validate_config, fine, bad) at h))
    | inl stored ↦ (fine, stored, rw (validate_config, fine, stored) at h)
  ]
]

-- A file that the check of the permissions let pass.
abbrev pub IsClosed : Source → Text → Type 0
IsClosed s f =
    (mode : ℕ)
    → is_empty f ≡ false
    → s.stat f ≡ some mode
    → (is_too_open mode && not s.windows) ≡ false

AreClosed : Source → List Text → Type 0
AreClosed s [] = Unit
AreClosed s (f ∷ files) = IsClosed s f × AreClosed s files

check_file_perms-AreClosed :
    (s : Source) (files : List Text)
    → check_file_perms s.stat s.windows files ≡ none
    → AreClosed s files
unfolding check_file_perms AreClosed
check_file_perms-AreClosed s [] h = tt
check_file_perms-AreClosed s (f ∷ files) h = elim (Bool-cases (is_empty f)) [
  | inl blank ↦ (
    λ mode filled there. absurd (cc),
    check_file_perms-AreClosed s files (rw (check_file_perms, blank) at h),
  )
  | inr filled ↦ elim (Option-cases (s.stat f)) [
    | inl missing ↦ (
      λ mode _ there. absurd (cc),
      check_file_perms-AreClosed s files (rw (check_file_perms, filled, missing) at h),
    )
    | inr (mode, there) ↦ elim (Bool-cases (is_too_open mode && not s.windows)) [
      | inl bad ↦ absurd (cc (rw (check_file_perms, filled, there, bad) at h))
      | inr closed ↦ (
        λ other _ same. rw (number_injective other mode (sym same ∙ there)) closed,
        check_file_perms-AreClosed s files (rw (check_file_perms, filled, there, closed) at h),
      )
    ]
  ]
]

env_override-ok :
    (s : Source) (config c : Config)
    → env_override s config ≡ ok c
    → (is_empty c.port ≡ false) × (ensure_port_format c.port ≡ c.port)
unfolding env_override
env_override-ok s config c h = elim (Result-cases (s.process_env config)) [
  | inr (e, bad) ↦ absurd (cc (rw (env_override, bad) at h))
  | inl (d, fine) ↦
      let same =
        ap (λ (x : Config). x.port)
          (ok-injective (record d { port = ensure_port_format (or_default_port (env_port s d)) }) c
            (rw (env_override, fine) at h)) in
      (
        rw (sym same) (port_filled (env_port s d)),
        rw (sym same) (ensure_port_format-twice (or_default_port (env_port s d))),
      )
]

-- A file that is read gives a configuration whose port is not empty and has its format, whose
-- storage type and index type are known, whose fields the validator accepts, and the section of its
-- storage type and of its index type too, where the type has one; in production, neither the file nor the filter file lets the group or the others write or execute, where the system has such
-- permissions and the file is there.
pub parse_config_file-valid :
    (s : Source) (f : Text) (c : Config)
    → parse_config_file s f ≡ ok c
    → (is_empty c.port ≡ false)
      × (ensure_port_format c.port ≡ c.port)
      × (is_one_of storage_types c.storage_type ≡ true)
      × ((is_empty c.index_type || is_one_of index_types c.index_type) ≡ true)
      × (s.validator.fields c ≡ none)
      × (section_error s.validator c (lookup storage_sections c.storage_type) ≡ none)
      × (section_error s.validator c (lookup index_sections c.index_type) ≡ none)
      × (c.go_env == text "production" ≡ true → IsClosed s f × IsClosed s c.filter_file)
unfolding parse_config_file AreClosed
parse_config_file-valid s f c h = elim (Result-cases (s.decode_file f)) [
  | inr (e, bad) ↦ absurd (cc (rw (parse_config_file, bad) at h))
  | inl (config, decoded) ↦ elim (Result-cases (env_override s config)) [
    | inr (e, bad) ↦ absurd (cc (rw (parse_config_file, decoded, bad) at h))
    | inl (d, overridden) ↦
        let (same, valid, perms) =
          checked-ok s f d c (rw (parse_config_file, decoded, overridden) at h) in
        let (filled, format) = env_override-ok s config d overridden in
        let (fields, stored, indexed) = validate_config-none s.validator d valid in
        rw (sym same) (
          filled,
          format,
          validate_storage-known s.validator d stored,
          validate_index-known s.validator d indexed,
          fields,
          validate_storage-section s.validator d stored,
          validate_index-section s.validator d indexed,
          λ production.
              let (own, (filter, _)) =
                check_file_perms-AreClosed s (f ∷ d.filter_file ∷ []) (perms production) in
              (own, filter),
        )
  ]
]
