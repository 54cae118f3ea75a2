-- ===== src/Server.antt =====
-- internal/server/config.go and the choice of the log level in server.go.
pub mod Mux
pub mod Start
pub mod Orderly
pub mod Sending
pub mod Kept
pub mod Lifecycle
use torrents.Prelude.{
  String, true, false, ◌≡◌, List, [], ◌∷◌, ◌++◌, ◌==◌, ◌||◌, arith, if◌then◌else◌,
}
use torrents.Go.Errors.{Error, plain, wrap, plain_quoted}
use torrents.Go.Exec.{Result, ok, err}

pub record HttpConfig : Type 0 where
  pub address : String

pub record DataConfig : Type 0 where
  pub directory : String

pub record LoggingConfig : Type 0 where
  pub level : String

pub record Config : Type 0 where
  pub http : HttpConfig
  pub data_config : DataConfig
  pub logging : LoggingConfig

pub data Level : Type 0 where
  level_debug level_info level_warn level_error : Level

-- `home` is `os.UserHomeDir`, and `join` is `filepath.Join`.
abbrev pub default_data_dir : (List String → String) → Result String → String
default_data_dir join (err e) = "data"
default_data_dir join (ok home) = join (home ∷ ".local" ∷ "share" ∷ "torrents" ∷ [])

unfoldable pub default_config : (List String → String) → Result String → Config
default_config join home = record {
  http = record { address = ":7373" };
  data_config = record { directory = default_data_dir join home };
  logging = record { level = "info" };
}

-- `decode_file` is `toml.DecodeFile`.
unfoldable pub load_config : (String → Result Config) → String → Result Config
load_config decode_file path = elim (decode_file path) [
  | err e ↦ err (wrap "failed to decode config file" e)
  | ok config ↦ ok config
]

-- Errors as `errors.Join` takes them: none, or one.
unfoldable pub validate_http : HttpConfig → List Error
validate_http c = if c.address == "" then plain "http address is required" ∷ [] else []

unfoldable pub validate_data : DataConfig → List Error
validate_data c = if c.directory == "" then plain "data directory is required" ∷ [] else []

-- `to_lower` is `strings.ToLower`.
unfoldable pub validate_logging : (String → String) → LoggingConfig → List Error
validate_logging to_lower c =
    let level = to_lower c.level in
    if level == "debug" || level == "info" || level == "warn" || level == "error"
    then []
    else plain_quoted "invalid log level:" c.level ∷ []

-- `errors.Join`: the errors in their order, and no error if there are none.
unfoldable pub validate : (String → String) → Config → List Error
unfolding validate_http validate_data validate_logging
validate to_lower c =
    validate_http c.http ++ (validate_data c.data_config ++ validate_logging to_lower c.logging)

-- The level of `newLogger`.
unfoldable pub log_level : (String → String) → LoggingConfig → Level
log_level to_lower c =
    let level = to_lower c.level in
    if level == "debug"
    then level_debug
    else if level == "warn"
    then level_warn
    else if level == "error"
    then level_error
    else level_info

-- The names that the configuration has for the levels.
abbrev pub level_name : Level → String
level_name level_debug = "debug"
level_name level_info = "info"
level_name level_warn = "warn"
level_name level_error = "error"

-- A configuration that validates has an address and a directory, and its level is the name, in lower
-- case, of the level that the logger is given.
pub validate_lem :
    (to_lower : String → String) (c : Config)
    → validate to_lower c ≡ []
    → ((c.http.address == "") ≡ false)
      × ((c.data_config.directory == "") ≡ false)
      × ((to_lower c.logging.level == level_name (log_level to_lower c.logging)) ≡ true)
unfolding validate validate_http validate_data validate_logging log_level
validate_lem to_lower c h = ground arith
