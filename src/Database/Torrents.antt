-- ===== src/Database/Torrents.antt =====
-- internal/server/database/torrent.go: the statements of `TorrentRepository`.
pub mod Table
pub mod Exact
pub mod Valid
pub mod Identity
pub mod Keyed
pub mod Order
pub mod Refines
pub mod Listed
use torrents.Prelude.{
  ℕ, suc, String, Bool, false, not, none, some, List, [], ◌∷◌, ◌++◌, ◌==◌, eqb, first, keep, change,
  if◌then◌else◌,
}
use torrents.Go.Errors.{sqlite, no_rows, wrap}
use torrents.Go.Exec.{Result, ok, err, Exec, or_else, pure, raise}
use torrents.Go.Time.{Stamp, stamp_le}
use torrents.Database.Defs.{
  Row, Torrent, Store, Env, call, format_time, parse_timestamps, is_unique_error, is_no_rows,
  sqlite_constraint_primary_key, err_torrent_not_found, err_torrent_already_exists,
}

abbrev pub has_hash : String → Row → Bool
has_hash info_hash r = r.info_hash == info_hash

-- INSERT INTO torrent, under PRIMARY KEY (info_hash); the other columns take their defaults.
unfoldable pub insert_torrent : Env → Torrent → Stamp → Exec Store (Unit {0})
insert_torrent env t now s =
    or_else (call env) raise
      (λ _ s'. elim (first (has_hash t.info_hash) s'.torrents) [
        | some r ↦ (err (sqlite sqlite_constraint_primary_key), s')
        | none ↦ (
          ok tt,
          record s' {
            torrents =
                s'.torrents
                ++ (record {
                  info_hash = t.info_hash;
                  magnet = t.magnet;
                  label = t.label;
                  target_dir = t.target_dir;
                  is_paused = false;
                  name = "";
                  length = 0;
                  bytes_completed = 0;
                  created_at = now;
                  updated_at = now;
                })
                  ∷ [];
          },
        )
      ])
      s

unfoldable pub create : Env → Torrent → Exec Store (Unit {0})
unfolding insert_torrent format_time is_unique_error
create env t s =
    let now = format_time (env.now s.calls) in
    or_else (insert_torrent env t now)
      (λ e. raise (
        if is_unique_error e
        then err_torrent_already_exists
        else wrap "failed to insert torrent" e))
      pure s

-- The columns of one row, and the times that they spell.
unfoldable pub scan_torrent : Row → Result Torrent
unfolding parse_timestamps
scan_torrent r = elim (parse_timestamps r.created_at r.updated_at) [
  | err e ↦ err e
  | ok times ↦ ok (record {
    info_hash = r.info_hash;
    magnet = r.magnet;
    label = r.label;
    target_dir = r.target_dir;
    paused = r.is_paused;
    name = r.name;
    length = r.length;
    bytes_completed = r.bytes_completed;
    created_at = times.0;
    updated_at = times.1;
  })
]

-- SELECT ... WHERE info_hash = ?, with `sql.ErrNoRows` if there is none.
unfoldable pub select_torrent : Env → String → Exec Store Row
select_torrent env info_hash = or_else (call env) raise (λ _ s.
    elim (first (has_hash info_hash) s.torrents) [ some r ↦ (ok r, s) | none ↦ (err no_rows, s) ])

unfoldable pub get : Env → String → Exec Store Torrent
unfolding select_torrent scan_torrent is_no_rows
get env info_hash =
    or_else (select_torrent env info_hash)
      (λ e. raise (if is_no_rows e then err_torrent_not_found else wrap "failed to load torrent" e))
      (λ r s. (scan_torrent r, s))

-- ORDER BY created_at ASC: the texts are compared, and rows with equal texts keep their order.
unfoldable pub insert_by_created_at : Row → List Row → List Row
unfolding stamp_le
insert_by_created_at r [] = r ∷ []
insert_by_created_at r (q ∷ rows) =
    if stamp_le r.created_at q.created_at then r ∷ q ∷ rows else q ∷ insert_by_created_at r rows

unfoldable pub order_by_created_at : List Row → List Row
unfolding insert_by_created_at
order_by_created_at [] = []
order_by_created_at (r ∷ rows) = insert_by_created_at r (order_by_created_at rows)

-- `for rows.Next()`: a row that does not scan, or whose times do not parse, ends the loop.
unfoldable pub scan_rows : Env → List Row → Exec Store (List Torrent)
scan_rows env [] = pure []
scan_rows env (r ∷ rows) =
    or_else (call env) (λ e. raise (wrap "failed to scan torrent" e))
      (λ _ s. elim (scan_torrent r) [
        | err e ↦ (err e, s)
        | ok t ↦ or_else (scan_rows env rows) raise (λ ts. pure (t ∷ ts)) s
      ])

-- The query, the loop over its rows, and `rows.Err()`.
unfoldable pub list : Env → Exec Store (List Torrent)
list env =
    or_else (call env) (λ e. raise (wrap "failed to query torrents" e))
      (λ _ s.
        or_else (scan_rows env (order_by_created_at s.torrents)) raise
          (λ ts. or_else (call env) raise (λ _. pure ts)) s)

-- `result.RowsAffected()`, and not-found if no row was.
unfoldable pub check_affected : Env → ℕ → Exec Store (Unit {0})
check_affected env rows =
    or_else (call env) (λ e. raise (wrap "failed to read affected rows" e))
      (λ _. if eqb rows 0 then raise err_torrent_not_found else pure tt)

abbrev pub count_rows : List Row → ℕ
count_rows [] = 0
count_rows (r ∷ rows) = suc (count_rows rows)

-- DELETE FROM torrent WHERE info_hash = ?, with the trigger piece_completion_cascade.
unfoldable pub delete_rows : String → Store → Store
delete_rows info_hash s = elim (first (has_hash info_hash) s.torrents) [
  | none ↦ s
  | some r ↦ record s {
    torrents = keep (λ r. not (has_hash info_hash r)) s.torrents;
    completions = keep (λ p. not (p.info_hash == info_hash)) s.completions;
  }
]

unfoldable pub delete : Env → String → Exec Store (Unit {0})
unfolding delete_rows
delete env info_hash =
    or_else (call env) (λ e. raise (wrap "failed to delete torrent" e))
      (λ _ s.
        check_affected env (count_rows (keep (has_hash info_hash) s.torrents))
          (delete_rows info_hash s))

-- UPDATE torrent SET ..., updated_at = ? WHERE info_hash = ?
unfoldable pub update_torrent : Env → String → (Stamp → Row → Row) → Exec Store (Unit {0})
unfolding format_time
update_torrent env info_hash set s =
    let now = format_time (env.now s.calls) in
    or_else (call env) (λ e. raise (wrap "failed to update torrent" e))
      (λ _ s'.
        check_affected env (count_rows (keep (has_hash info_hash) s'.torrents))
          (record s' { torrents = change (has_hash info_hash) (set now) s'.torrents }))
      s

-- The SET clauses of the three UPDATE statements.
abbrev pub metadata_columns : String → ℕ → Stamp → Row → Row
metadata_columns name length now r = record r { name = name; length = length; updated_at = now }

abbrev pub bytes_completed_column : ℕ → Stamp → Row → Row
bytes_completed_column n now r = record r { bytes_completed = n; updated_at = now }

abbrev pub paused_column : Bool → Stamp → Row → Row
paused_column paused now r = record r { is_paused = paused; updated_at = now }

unfoldable pub set_metadata : Env → String → String → ℕ → Exec Store (Unit {0})
set_metadata env info_hash name length = update_torrent env info_hash (metadata_columns name length)

unfoldable pub set_bytes_completed : Env → String → ℕ → Exec Store (Unit {0})
set_bytes_completed env info_hash n = update_torrent env info_hash (bytes_completed_column n)

unfoldable pub set_paused : Env → String → Bool → Exec Store (Unit {0})
set_paused env info_hash paused = update_torrent env info_hash (paused_column paused)
