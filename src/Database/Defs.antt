-- ===== src/Database/Defs.antt =====
-- The tables of migrations/*.up.sql, the state that the package keeps, and the helpers of
-- internal/server/database/database.go.
use torrents.Prelude.{
  ℕ, suc, String, Bool, true, false, ◌||◌, ◌≡◌, refl, Option, none, some, List, eqb,
}
use torrents.Go.Errors.{
  Error, Sentinel, sentinel, no_rows, sqlite, plain, wrap, wrap_quoted, plain_quoted, annotate,
  response,
}
use torrents.Go.Exec.{Result, ok, err, Exec}
use torrents.Go.Time.{Time, Stamp, fraction_text, parse_time}

abbrev pub err_torrent_not_found : Error
err_torrent_not_found = sentinel Sentinel.db_torrent_not_found

abbrev pub err_torrent_already_exists : Error
err_torrent_already_exists = sentinel Sentinel.db_torrent_already_exists

abbrev pub sqlite_constraint_primary_key : ℕ
sqlite_constraint_primary_key = 1555

abbrev pub sqlite_constraint_unique : ℕ
sqlite_constraint_unique = 2067

-- A row of the table `torrent`.
pub record Row : Type 0 where
  pub info_hash : String
  pub magnet : String
  pub label : String
  pub target_dir : String
  pub is_paused : Bool
  pub name : String
  pub length : ℕ
  pub bytes_completed : ℕ
  pub created_at : Stamp
  pub updated_at : Stamp

-- `database.Torrent`
pub record Torrent : Type 0 where
  pub info_hash : String
  pub magnet : String
  pub label : String
  pub target_dir : String
  pub paused : Bool
  pub name : String
  pub length : ℕ
  pub bytes_completed : ℕ
  pub created_at : Time
  pub updated_at : Time

-- A row of the table `piece_completion`.
pub record PieceRow : Type 0 where
  pub info_hash : String
  pub piece_index : ℕ
  pub complete : Bool

-- `metainfo.Hash`, 20 bytes, as the number that they spell.
abbrev pub Hash : Type 0
Hash = ℕ

-- `metainfo.PieceKey`
pub record PieceKey : Type 0 where
  pub info_hash : Hash
  pub index : ℕ

-- What the two repositories share: the tables, the cache of `PieceRepository`, and the number of
-- calls into SQLite so far, by which the environment answers.
pub record Store : Type 0 where
  pub torrents : List Row
  pub completions : List PieceRow
  pub cache : List (PieceKey × Bool)
  pub calls : ℕ

-- What the program does not decide: the error of the n-th call, if it fails, the clock, and the
-- hexadecimal text of a hash (`HexString` and `FromHexString` of the metainfo package).
pub record Env : Type 0 where
  pub fault : ℕ → Option Error
  pub now : ℕ → Time
  pub hex_string : Hash → String
  pub from_hex_string : String → Result Hash

abbrev pub tick : Store → Store
tick s = record s { calls = suc s.calls }

-- A call into SQLite that fails, or that lets the statement take effect.
unfoldable pub call : Env → Exec Store (Unit {0})
call env s = elim (env.fault s.calls) [ none ↦ (ok tt, tick s) | some e ↦ (err e, tick s) ]

unfoldable pub format_time : Time → Stamp
unfolding fraction_text
format_time t = record { seconds = t.seconds; fraction = fraction_text t.nanos }

unfoldable pub parse_timestamps : Stamp → Stamp → Result (Time × Time)
unfolding parse_time
parse_timestamps created_at updated_at = elim (parse_time created_at) [
  | none ↦ err (wrap "failed to parse created_at" (plain "parsing time"))
  | some created ↦ elim (parse_time updated_at) [
    | none ↦ err (wrap "failed to parse updated_at" (plain "parsing time"))
    | some updated ↦ ok (created, updated)
  ]
]

-- `errors.As` to a `*sqlite.Error`, and its code.
abbrev pub sqlite_code : Error → Option ℕ
sqlite_code (sqlite code) = some code
sqlite_code (wrap label e) = sqlite_code e
sqlite_code (wrap_quoted label v e) = sqlite_code e
sqlite_code (annotate e cause) = sqlite_code e
sqlite_code _ = none

unfoldable pub is_unique_error : Error → Bool
is_unique_error e = elim (sqlite_code e) [
  | none ↦ false
  | some code ↦ eqb code sqlite_constraint_primary_key || eqb code sqlite_constraint_unique
]

-- `errors.Is(err, sql.ErrNoRows)`
unfoldable pub is_no_rows : Error → Bool
is_no_rows no_rows = true
is_no_rows (sentinel s) = false
is_no_rows (sqlite code) = false
is_no_rows (plain t) = false
is_no_rows (wrap label e) = is_no_rows e
is_no_rows (wrap_quoted label v e) = is_no_rows e
is_no_rows (plain_quoted label v) = false
is_no_rows (annotate e cause) = is_no_rows e
is_no_rows (response status m) = false

-- A call that goes through, and one that does not.
pub call-up : (env : Env) (s : Store) → env.fault s.calls ≡ none → call env s ≡ (ok tt, tick s)
unfolding call
call-up env s up = rw (up, call) refl

pub call-down :
    (env : Env) (s : Store) {e : Error} → env.fault s.calls ≡ some e → call env s ≡ (err e, tick s)
unfolding call
call-down env s down = rw (down, call) refl
