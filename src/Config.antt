-- ===== src/Config.antt =====
-- pkg/config/config.go: the settings of the proxy. The decoder of the file, envconfig, the validator,
-- the environment and the permissions of files are parameters.
pub mod EnvLists
pub mod Sections
pub mod Valid
mod Tests
use athens.Prelude.{
  ℕ, ◌/◌, ◌%◌, Bool, true, false, ◌||◌, ◌&&◌, not, Option, none, some, List, [], ◌∷◌, ◌++◌, ◌==◌,
  nat_eq, text_eq, if◌then◌else◌, Text, text, is_empty, contains, split,
}
use athens.Errors.{GoError, Result, ok, err, plain, make_error, error_arg, string_arg, has_prefix}
use athens.Filter.Qualifiers.{trim_space, atoi}

abbrev pub EnvList : Type 0
EnvList = List Text

unfoldable pub has_key : EnvList → Text → Bool
unfolding has_prefix
has_key [] key = false
has_key (env ∷ el) key = has_prefix env (key ++ text "=") || has_key el key

abbrev pub add : EnvList → Text → Text → EnvList
add el key value = el ++ (key ++ text "=" ++ value) ∷ []

-- EnvList.Validate: `strings.Count(env, "=") < 1`.
unfoldable pub validate : EnvList → Option GoError
unfolding contains
validate [] = none
validate (env ∷ el) =
    let rest = validate el in
    if contains env b'='
    then rest
    else some (
        make_error (text "EnvList.Validate")
          (error_arg (plain (text "incorrect env format: " ++ env)) ∷ []))

abbrev trim_each : List Text → List Text
trim_each [] = []
trim_each (assignment ∷ assignments) = trim_space assignment ∷ trim_each assignments

-- EnvList.Decode: the list after it, and its error.
unfoldable pub decode : Text → EnvList → EnvList × Option GoError
unfolding trim_space split validate
decode value el =
    if is_empty value
    then (el, none)
    else (trim_each (split (text ";") value), validate (trim_each (split (text ";") value)))

-- The part of Config that this file reads.
pub record Config : Type 0 where
  pub go_env : Text
  pub port : Text
  pub filter_file : Text
  pub basic_auth_user : Text
  pub basic_auth_pass : Text
  pub storage_type : Text
  pub index_type : Text

abbrev pub basic_auth_of : Config → Text × Text × Bool
basic_auth_of c = (
  c.basic_auth_user,
  c.basic_auth_pass,
  not (is_empty c.basic_auth_user) && not (is_empty c.basic_auth_pass),
)

abbrev pub filter_off : Config → Bool
filter_off c = is_empty c.filter_file

unfoldable pub ensure_port_format : Text → Text
unfolding atoi
ensure_port_format s = elim (atoi s) [ some n ↦ text ":" ++ s | none ↦ s ]

-- The structs of the storages and indexes that the validator checks.
pub data Section : Type 0 where
  mongo disk minio gcp s3 azure_blob external mysql postgres : Section

-- validate.StructExcept and validate.Struct on the sections of a configuration.
pub record Validator : Type 0 where
  pub fields : Config → Option GoError
  pub section : Config → Section → Option GoError

unfoldable pub validate_storage : Validator → Config → Option GoError
validate_storage v c =
    if c.storage_type == text "memory"
    then none
    else (if c.storage_type == text "mongo"
        then v.section c mongo
        else (if c.storage_type == text "disk"
            then v.section c disk
            else (if c.storage_type == text "minio"
                then v.section c minio
                else (if c.storage_type == text "gcp"
                    then v.section c gcp
                    else (if c.storage_type == text "s3"
                        then v.section c s3
                        else (if c.storage_type == text "azureblob"
                            then v.section c azure_blob
                            else (if c.storage_type == text "external"
                                then v.section c external
                                else some (plain (text "storage type is unknown")))))))))

unfoldable pub validate_index : Validator → Config → Option GoError
validate_index v c =
    if is_empty c.index_type || (c.index_type == text "none" || c.index_type == text "memory")
    then none
    else (if c.index_type == text "mysql"
        then v.section c mysql
        else (if c.index_type == text "postgres"
            then v.section c postgres
            else some (plain (text "index type is unknown"))))

unfoldable pub validate_config : Validator → Config → Option GoError
unfolding validate_storage validate_index
validate_config v c = elim (v.fields c) [
  | some e ↦ some e
  | none ↦ elim (validate_storage v c) [ some e ↦ some e | none ↦ validate_index v c ]
]

-- `mode & 0o033 != 0`: the group or the others may write or execute.
unfoldable pub is_too_open : ℕ → Bool
is_too_open mode = not ((mode / 8) % 4 == 0) || not (mode % 4 == 0)

-- checkFilePerms, with the mode of each file, if it is there.
unfoldable pub check_file_perms : (Text → Option ℕ) → Bool → List Text → Option GoError
unfolding is_too_open
check_file_perms stat windows [] = none
check_file_perms stat windows (f ∷ files) =
    let rest = check_file_perms stat windows files in
    if is_empty f then rest else elim (stat f) [
      | none ↦ rest
      | some mode ↦
          if is_too_open mode && not windows
          then some (
              make_error (text "config.checkFilePerms") (
                string_arg (f ++ text " should have at most rwx,-, - (bit mask 077) as permission")
                ∷ []))
          else rest
    ]

-- What the configuration is read from: the decoded file, envconfig.Process, os.Getenv, os.Stat, and
-- the operating system.
pub record Source : Type 0 where
  pub decode_file : Text → Result Config
  pub process_env : Config → Result Config
  pub getenv : Text → Text
  pub stat : Text → Option ℕ
  pub windows : Bool
  pub validator : Validator

abbrev pub default_port : Text
default_port = text ":3000"

abbrev pub env_port : Source → Config → Text
env_port s c =
    if not (is_empty (s.getenv (text "PORT"))) && is_empty (s.getenv (text "ATHENS_PORT"))
    then s.getenv (text "PORT")
    else c.port

abbrev pub or_default_port : Text → Text
or_default_port port = if is_empty port then default_port else port

unfoldable pub env_override : Source → Config → Result Config
unfolding ensure_port_format
env_override s config = elim (s.process_env config) [
  | err e ↦ err e
  | ok c ↦ ok (record c { port = ensure_port_format (or_default_port (env_port s c)) })
]

-- ParseConfigFile after the overrides.
unfoldable pub checked : Source → Text → Config → Result Config
unfolding check_file_perms validate_config
checked s config_file c =
    elim (if c.go_env == text "production"
      then check_file_perms s.stat s.windows (config_file ∷ c.filter_file ∷ [])
      else none) [
        | some e ↦ err e
        | none ↦ elim (validate_config s.validator c) [ some e ↦ err e | none ↦ ok c ]
      ]

unfoldable pub parse_config_file : Source → Text → Result Config
unfolding env_override checked
parse_config_file s config_file = elim (s.decode_file config_file) [
  | err e ↦ err e
  | ok config ↦ elim (env_override s config) [ err e ↦ err e | ok c ↦ checked s config_file c ]
]

abbrev pub default_config_file : Text
default_config_file = text "athens.toml"

-- Load: the file that is asked for, the one in the directory, or the defaults, which are not
-- validated.
unfoldable pub load_config : Source → Config → Text → Result Config
unfolding parse_config_file env_override
load_config s default_config config_file =
    if is_empty config_file
    then elim (s.stat default_config_file) [
      | some mode ↦ parse_config_file s default_config_file
      | none ↦ env_override s default_config
    ]
    else parse_config_file s config_file
