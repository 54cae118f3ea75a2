-- ===== src/Database/Torrents/Exact.antt =====
-- Each statement of `TorrentRepository` in each of its outcomes, as the result and the state after.
use torrents.Prelude.{
  ℕ, zero, suc, ◌≤◌, String, false, ◌≡◌, none, some, [], ◌∷◌, ◌++◌, arith, keep, change,
  if◌then◌else◌,
}
use torrents.Go.Errors.{Error, wrap}
use torrents.Go.Exec.{ok, err}
use torrents.Go.Time.{Stamp}
use torrents.Database.Defs.{
  Row, Torrent, Store, Env, tick, call, call-up, call-down, format_time, is_unique_error,
  is_no_rows, err_torrent_not_found, err_torrent_already_exists,
}
use torrents.Database.Torrents.{
  has_hash, count_rows, create, scan_torrent, get, delete_rows, check_affected, delete,
  update_torrent,
}
use torrents.Database.Torrents.Table.{row_of, count_rows-zero, count_rows-pos}

-- The row that INSERT writes.
abbrev pub new_row : Torrent → Stamp → Row
new_row t now = record {
  info_hash = t.info_hash;
  magnet = t.magnet;
  label = t.label;
  target_dir = t.target_dir;
  is_paused = false;
  name = "";
  length = 0;
  bytes_completed = 0;
  created_at = now;
  updated_at = now;
}

module _ (env : Env) (t : Torrent) (s : Store) where
  pub create_new :
      env.fault s.calls ≡ none
      → row_of t.info_hash s.torrents ≡ none
      → create env t s ≡ (
        ok tt,
        record (tick s) { torrents = s.torrents ++ new_row t (format_time (env.now s.calls)) ∷ [] },
      )
  unfolding create
  create_new up new = ground (arith, call-up env s up)

  pub create_duplicate :
      {r : Row}
      → env.fault s.calls ≡ none
      → row_of t.info_hash s.torrents ≡ some r
      → create env t s ≡ (err err_torrent_already_exists, tick s)
  unfolding create
  create_duplicate up old = ground (arith, call-up env s up)

  pub create_down :
      {e : Error}
      → env.fault s.calls ≡ some e
      → create env t s ≡ (
        err (
            if is_unique_error e
            then err_torrent_already_exists
            else wrap "failed to insert torrent" e),
        tick s,
      )
  unfolding create
  create_down down = ground (arith, call-down env s down)

module _ (env : Env) (h : String) (s : Store) where
  pub get_found :
      {r : Row}
      → env.fault s.calls ≡ none
      → row_of h s.torrents ≡ some r
      → get env h s ≡ (scan_torrent r, tick s)
  unfolding get
  get_found up found = ground (arith, call-up env s up)

  pub get_missing :
      env.fault s.calls ≡ none
      → row_of h s.torrents ≡ none
      → get env h s ≡ (err err_torrent_not_found, tick s)
  unfolding get
  get_missing up missing = ground (arith, call-up env s up)

  pub get_down :
      {e : Error}
      → env.fault s.calls ≡ some e
      → get env h s ≡ (
        err (if is_no_rows e then err_torrent_not_found else wrap "failed to load torrent" e),
        tick s,
      )
  unfolding get
  get_down down = ground (arith, call-down env s down)

-- The number of rows, read back after the statement took effect.
module _ (env : Env) (s : Store) where
  pub check_affected-zero :
      env.fault s.calls ≡ none → check_affected env 0 s ≡ (err err_torrent_not_found, tick s)
  unfolding check_affected
  check_affected-zero up = ground (arith, call-up env s up)

  pub check_affected-pos :
      (n : ℕ) → env.fault s.calls ≡ none → 1 ≤ n → check_affected env n s ≡ (ok tt, tick s)
  unfolding check_affected
  check_affected-pos zero up h = elim h [ ]
  check_affected-pos (suc n) up h = ground (arith, call-up env s up)

  pub check_affected-down :
      (n : ℕ) {e : Error}
      → env.fault s.calls ≡ some e
      → check_affected env n s ≡ (err (wrap "failed to read affected rows" e), tick s)
  unfolding check_affected
  check_affected-down n down = ground (arith, call-down env s down)

-- Both calls of an UPDATE or a DELETE go through.
abbrev pub IsUp : Env → ℕ → Type 0
IsUp env n = (env.fault n ≡ none) × (env.fault (suc n) ≡ none)

module _ (env : Env) (h : String) (f : Stamp → Row → Row) (s : Store) where
  -- The state after the UPDATE took effect.
  abbrev pub updated : Store
  updated = record (tick s) {
    torrents = change (has_hash h) (f (format_time (env.now s.calls))) s.torrents;
  }

  pub update_found :
      {r : Row}
      → IsUp env s.calls
      → row_of h s.torrents ≡ some r
      → update_torrent env h f s ≡ (ok tt, tick updated)
  unfolding update_torrent
  update_found {r} up found = ground (
    arith,
    call-up env s up.0,
    check_affected-pos env updated (count_rows (keep (has_hash h) s.torrents)) up.1,
    count_rows-pos h s.torrents found,
  )

  pub update_missing :
      IsUp env s.calls
      → row_of h s.torrents ≡ none
      → update_torrent env h f s ≡ (err err_torrent_not_found, tick updated)
  unfolding update_torrent
  update_missing up missing = ground (
    arith,
    call-up env s up.0,
    check_affected-zero env updated up.1,
    count_rows-zero h s.torrents missing,
  )

  pub update_down :
      {e : Error}
      → env.fault s.calls ≡ some e
      → update_torrent env h f s ≡ (err (wrap "failed to update torrent" e), tick s)
  unfolding update_torrent
  update_down down = ground (arith, call-down env s down)

module _ (env : Env) (h : String) (s : Store) where
  abbrev pub deleted : Store
  deleted = delete_rows h (tick s)

  pub delete_found :
      {r : Row}
      → IsUp env s.calls
      → row_of h s.torrents ≡ some r
      → delete env h s ≡ (ok tt, tick deleted)
  unfolding delete
  delete_found {r} up found = ground (
    arith,
    call-up env s up.0,
    check_affected-pos env deleted (count_rows (keep (has_hash h) s.torrents)),
    count_rows-pos h s.torrents found,
  )

  pub delete_missing :
      IsUp env s.calls
      → row_of h s.torrents ≡ none
      → delete env h s ≡ (err err_torrent_not_found, tick (tick s))
  unfolding delete delete_rows
  delete_missing up missing = ground (
    arith,
    call-up env s up.0,
    check_affected-zero env (tick s) up.1,
    count_rows-zero h s.torrents missing,
  )

  pub delete_down :
      {e : Error}
      → env.fault s.calls ≡ some e
      → delete env h s ≡ (err (wrap "failed to delete torrent" e), tick s)
  unfolding delete
  delete_down down = ground (arith, call-down env s down)

-- The table after a statement whose first call goes through, whatever the second one does.
pub check_affected-store : (env : Env) (n : ℕ) (s : Store) → (check_affected env n s).1 ≡ tick s
unfolding check_affected call
check_affected-store env n s = ground arith

pub update-store :
    (env : Env) (h : String) (f : Stamp → Row → Row) (s : Store)
    → env.fault s.calls ≡ none
    → (update_torrent env h f s).1 ≡ tick (updated env h f s)
unfolding update_torrent
update-store env h f s up = ground (
  arith,
  call-up env s up,
  check_affected-store env (count_rows (keep (has_hash h) s.torrents)) (updated env h f s),
)

pub delete-store :
    (env : Env) (h : String) (s : Store)
    → env.fault s.calls ≡ none
    → (delete env h s).1 ≡ tick (deleted env h s)
unfolding delete
delete-store env h s up = ground (
  arith,
  call-up env s up,
  check_affected-store env (count_rows (keep (has_hash h) s.torrents)) (deleted env h s),
)
