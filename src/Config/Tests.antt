-- ===== src/Config/Tests.antt =====
-- The theorem on the configuration at a concrete input.
use athens.Prelude.{
  ◌≡◌, refl, true, false, ◌||◌, ◌==◌, text_eq, text_beq, none, some, text, is_empty, lookup, [],
  ◌∷◌,
}
use athens.Errors.{ok}
use athens.Config.{Config, Source, ensure_port_format, parse_config_file, decode, has_key, add}
use athens.Config.Sections.{
  storage_sections, index_sections, section_error, is_one_of, storage_types, index_types,
}
use athens.Config.Valid.{IsClosed, parse_config_file-valid}

abbrev file_config : Config
file_config = record {
  go_env = text "production";
  port = text "3001";
  filter_file = [];
  basic_auth_user = [];
  basic_auth_pass = [];
  storage_type = text "disk";
  index_type = text "none";
}

abbrev settings : Source
settings = record {
  decode_file = λ f. ok file_config;
  process_env = λ c. ok c;
  getenv = λ name. [];
  stat = λ f. some 416;
  windows = false;
  validator = record { fields = λ c. none; section = λ c s. none };
}

abbrev config : Config
config = record file_config { port = text ":3001" }

parse_config_file-valid_example :
    (is_empty config.port ≡ false)
    × (ensure_port_format config.port ≡ config.port)
    × (is_one_of storage_types config.storage_type ≡ true)
    × ((is_empty config.index_type || is_one_of index_types config.index_type) ≡ true)
    × (settings.validator.fields config ≡ none)
    × (section_error settings.validator config (lookup storage_sections config.storage_type) ≡ none)
    × (section_error settings.validator config (lookup index_sections config.index_type) ≡ none)
    × (config.go_env == text "production" ≡ true
        → IsClosed settings (text "c.toml") × IsClosed settings config.filter_file)
unfolding parse_config_file athens.Config.env_override athens.Config.checked ensure_port_format
    text_beq
parse_config_file-valid_example = parse_config_file-valid settings (text "c.toml") config refl

two_variables :
    decode (text "GOPRIVATE=*.corp; GOPROXY=direct") []
    ≡ (text "GOPRIVATE=*.corp" ∷ text "GOPROXY=direct" ∷ [], none)
unfolding decode
two_variables = refl
