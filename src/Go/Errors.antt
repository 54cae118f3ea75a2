-- ===== src/Go/Errors.antt =====
-- Go's `error` values as the program builds and tests them: sentinel values, `fmt.Errorf` with
-- `%w` and `errors.Is`. A sentinel is compared by identity, so the three "torrent not found"
-- errors of the packages database, torrent and service are three values.
use torrents.Prelude.{ℕ, String, Bool, false, ◌≡◌, List, [], ◌∷◌, ◌++◌, eqb}

pub data Sentinel : Type 0 where
  db_torrent_not_found db_torrent_already_exists : Sentinel
  engine_not_found engine_invalid_file : Sentinel
  service_torrent_not_found service_torrent_already_exists service_invalid_torrent_file : Sentinel
  ui_missing_magnet ui_missing_file : Sentinel

-- An identity for each sentinel.
abbrev pub tag : Sentinel → ℕ
tag Sentinel.db_torrent_not_found = 0
tag Sentinel.db_torrent_already_exists = 1
tag Sentinel.engine_not_found = 2
tag Sentinel.engine_invalid_file = 3
tag Sentinel.service_torrent_not_found = 4
tag Sentinel.service_torrent_already_exists = 5
tag Sentinel.service_invalid_torrent_file = 6
tag Sentinel.ui_missing_magnet = 7
tag Sentinel.ui_missing_file = 8

abbrev pub sentinel_text : Sentinel → String
sentinel_text Sentinel.db_torrent_not_found = "torrent not found"
sentinel_text Sentinel.db_torrent_already_exists = "torrent already exists"
sentinel_text Sentinel.engine_not_found = "torrent not found"
sentinel_text Sentinel.engine_invalid_file = "invalid torrent file"
sentinel_text Sentinel.service_torrent_not_found = "torrent not found"
sentinel_text Sentinel.service_torrent_already_exists = "torrent already exists"
sentinel_text Sentinel.service_invalid_torrent_file = "invalid torrent file"
sentinel_text Sentinel.ui_missing_magnet = "missing magnet"
sentinel_text Sentinel.ui_missing_file = "missing file"

-- A formatted text: what `fmt.Sprintf` joins, with the arguments of `%q` marked as quoted.
pub data Fragment : Type 0 where
  text quote : String → Fragment

abbrev pub Message : Type 0
Message = List Fragment

pub data Error : Type 0 where
  sentinel : Sentinel → Error
  -- `sql.ErrNoRows`, and a `*sqlite.Error` with its code
  no_rows : Error
  sqlite : ℕ → Error
  -- `errors.New`, or an error of a library that is none of the above
  plain : String → Error
  -- `fmt.Errorf("label: %w", e)`, `fmt.Errorf("label %q: %w", v, e)` and `fmt.Errorf("label %q", v)`
  wrap : String → Error → Error
  wrap_quoted : String → String → Error → Error
  plain_quoted : String → String → Error
  -- `fmt.Errorf("%w: %v", e, cause)`
  annotate : Error → Error → Error
  -- `api.ErrorResponse` as a client returns it
  response : ℕ → Message → Error

-- `errors.Is`: the chain of `%w` is searched.
abbrev pub is : Error → Sentinel → Bool
is (sentinel a) s = eqb (tag a) (tag s)
is no_rows s = false
is (sqlite code) s = false
is (plain t) s = false
is (wrap label e) s = is e s
is (wrap_quoted label v e) s = is e s
is (plain_quoted label v) s = false
is (annotate e cause) s = is e s
is (response status m) s = false

-- `err.Error()`
abbrev pub message : Error → Message
message (sentinel a) = text (sentinel_text a) ∷ []
message no_rows = text "sql: no rows in result set" ∷ []
message (sqlite code) = text "sqlite error" ∷ []
message (plain t) = text t ∷ []
message (wrap label e) = text label ∷ text ": " ∷ message e
message (wrap_quoted label v e) = text label ∷ text " " ∷ quote v ∷ text ": " ∷ message e
message (plain_quoted label v) = text label ∷ text " " ∷ quote v ∷ []
message (annotate e cause) = message e ++ text ": " ∷ message cause
message (response status m) = m

-- An error that carries none of the program's sentinels, as those of libraries do.
abbrev pub IsForeign : Error → Type 0
IsForeign e = (s : Sentinel) → is e s ≡ false
