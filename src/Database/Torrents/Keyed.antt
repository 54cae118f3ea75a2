-- ===== src/Database/Torrents/Keyed.antt =====
-- What the statements do to the row of one info hash, to the rows of the others, and to the
-- table `piece_completion`.
use torrents.Prelude.{
  ℕ, suc, String, Bool, false, not, ◌≡◌, refl, ap, ◌∙◌, Option, none, some, inl, inr, Option-cases,
  Bool-cases, List, ◌==◌, eq_refl, eq_iff, arith, keep, change, if◌then◌else◌,
}
use mathlib.Core.Option
use torrents.Go.Exec.{Result, ok, err}
use torrents.Go.Time.{Stamp}
use torrents.Database.Defs.{Row, Torrent, Store, Env, format_time, err_torrent_not_found}
use torrents.Database.Torrents.{
  has_hash, create, get, scan_torrent, delete_rows, delete, update_torrent, set_paused,
  set_metadata, set_bytes_completed, paused_column, metadata_columns, bytes_completed_column,
}
use torrents.Database.Torrents.Table.{
  KeepsKey, row_of, row_of-append, row_of-keep_self, row_of-keep_ne, row_of-change_self,
  row_of-change_ne,
}
use torrents.Database.Torrents.Exact.{
  IsUp, new_row, create_new, get_found, update_found, update_missing, delete_found, delete_missing,
}
use torrents.Database.Torrents.Valid.{IsClock, parse_time-format_time}

-- The torrent that `get` returns right after it was created: the given columns, not paused, no
-- metadata, and the time of the call as both times.
abbrev pub created : Env → Torrent → Store → Torrent
created env t s = record t {
  paused = false;
  name = "";
  length = 0;
  bytes_completed = 0;
  created_at = env.now s.calls;
  updated_at = env.now s.calls;
}

module _ (env : Env) (t : Torrent) (s : Store) (up : IsUp env s.calls) (c : IsClock env)
    (new : row_of t.info_hash s.torrents ≡ none) where
  row_of-create_self :
      row_of t.info_hash (create env t s).1.torrents
      ≡ some (new_row t (format_time (env.now s.calls)))
  row_of-create_self = rw (create_new env t s up.0 new) (
      rw (row_of-append t.info_hash s.torrents (new_row t (format_time (env.now s.calls))), new)
        (rw eq_refl refl))

  scan-new_row : scan_torrent (new_row t (format_time (env.now s.calls))) ≡ ok (created env t s)
  unfolding scan_torrent
  scan-new_row = ground (arith, parse_time-format_time (env.now s.calls) (c s.calls))

  calls-create : (create env t s).1.calls ≡ suc s.calls
  calls-create = rw (create_new env t s up.0 new) refl

  -- With a clock that keeps nanoseconds below a second and two calls that go through, creating a
  -- torrent whose info hash is absent and reading it back gives the torrent as it was given,
  -- unpaused, without metadata, and created and updated at the time of the call, whatever those
  -- fields were on the input.
  pub get-create : (get env t.info_hash (create env t s).1).0 ≡ ok (created env t s)
  get-create =
      ap (λ (p : Result Torrent × Store). p.0)
        (get_found env t.info_hash (create env t s).1 (rw calls-create up.1) row_of-create_self)
      ∙ scan-new_row

row_of-change :
    (h j : String) (f : Row → Row) (rows : List Row)
    → KeepsKey f
    → row_of j (change (has_hash h) f rows)
      ≡ (if j == h then Option.map f (row_of j rows) else row_of j rows)
row_of-change h j f rows k = elim (Bool-cases (j == h)) [
  | inl same ↦ rw same (rw ((eq_iff j h).0 same) (row_of-change_self h f rows k))
  | inr other ↦ rw other (row_of-change_ne h j f rows k (λ e. ground (arith, eq_iff j h)))
]

row_of-keep :
    (h j : String) (rows : List Row)
    → row_of j (keep (λ r. not (has_hash h r)) rows) ≡ (if j == h then none else row_of j rows)
row_of-keep h j rows = elim (Bool-cases (j == h)) [
  | inl same ↦ rw same (rw ((eq_iff j h).0 same) (row_of-keep_self h rows))
  | inr other ↦ rw other (row_of-keep_ne h j rows (λ e. ground (arith, eq_iff j h)))
]

-- The answer of a statement that changes the row of a key, by whether the row is there.
abbrev pub answer : Option Row → Result (Unit {0})
answer none = err err_torrent_not_found
answer (some r) = ok tt

-- What an UPDATE of the columns `f` of the row of `h` does when both calls go through.
abbrev pub Updates : Env → String → (Stamp → Row → Row) → Store → Result (Unit {0}) × Store → Type 0
Updates env h f s (r, s') =
    (r ≡ answer (row_of h s.torrents))
    × ((j : String)
        → row_of j s'.torrents ≡ (
            if j == h
            then Option.map (f (format_time (env.now s.calls))) (row_of j s.torrents)
            else row_of j s.torrents))
    × (s'.completions ≡ s.completions)
    × (s'.cache ≡ s.cache)

pub update-Updates :
    (env : Env) (h : String) (f : Stamp → Row → Row) (s : Store)
    → IsUp env s.calls
    → ((now : Stamp) → KeepsKey (f now))
    → Updates env h f s (update_torrent env h f s)
update-Updates env h f s up k = elim (Option-cases (row_of h s.torrents)) [
  | inl missing ↦ rw (update_missing env h f s up missing) (
    rw missing refl,
    λ j. row_of-change h j (f (format_time (env.now s.calls))) s.torrents (k _),
    refl,
    refl,
  )
  | inr (r, found) ↦ rw (update_found env h f s up found) (
    rw found refl,
    λ j. row_of-change h j (f (format_time (env.now s.calls))) s.torrents (k _),
    refl,
    refl,
  )
]

-- With both calls going through, each of the three UPDATE methods sets its columns and
-- `updated_at` in the row of its info hash and reports not-found exactly when that row is absent;
-- the rows of all other info hashes, the piece completions and the cache stay as they are.
pub set_columns :
    (env : Env) (h name : String) (n : ℕ) (paused : Bool) (s : Store)
    → IsUp env s.calls
    → Updates env h (paused_column paused) s (set_paused env h paused s)
      × Updates env h (metadata_columns name n) s (set_metadata env h name n s)
      × Updates env h (bytes_completed_column n) s (set_bytes_completed env h n s)
unfolding set_paused set_metadata set_bytes_completed
set_columns env h name n paused s up = (
  update-Updates env h (paused_column paused) s up (λ now r. refl),
  update-Updates env h (metadata_columns name n) s up (λ now r. refl),
  update-Updates env h (bytes_completed_column n) s up (λ now r. refl),
)

-- A DELETE of the row of `h` when both calls go through.
abbrev pub Deletes : String → Store → Result (Unit {0}) × Store → Type 0
Deletes h s (r, s') =
    (r ≡ answer (row_of h s.torrents))
    × ((j : String) → row_of j s'.torrents ≡ (if j == h then none else row_of j s.torrents))
    × (s'.completions ≡ elim (row_of h s.torrents) [
      | none ↦ s.completions
      | some r ↦ keep (λ p. not (p.info_hash == h)) s.completions
    ])
    × (s'.cache ≡ s.cache)

row_of-absent :
    (h j : String) (rows : List Row)
    → row_of h rows ≡ none
    → row_of j rows ≡ (if j == h then none else row_of j rows)
row_of-absent h j rows e = elim (Bool-cases (j == h)) [
  | inl same ↦ rw same (rw ((eq_iff j h).0 same) e)
  | inr other ↦ rw other refl
]

-- With both calls going through, DELETE removes the row of its info hash and, by the trigger, the
-- piece completions of that hash, and reports not-found, changing neither table, exactly when the
-- row is absent; the rows of all other info hashes and the cache stay as they are.
pub delete-Deletes :
    (env : Env) (h : String) (s : Store) → IsUp env s.calls → Deletes h s (delete env h s)
delete-Deletes env h s up = elim (Option-cases (row_of h s.torrents)) [
  | inl missing ↦
      rw (delete_missing env h s up missing)
        (rw missing refl, λ j. row_of-absent h j s.torrents missing, rw missing refl, refl)
  | inr (r, found) ↦ rw (delete_found env h s up found) (
      unfold delete_rows in
      rw (found, delete_rows) (refl, λ j. row_of-keep h j s.torrents, refl, refl))
]
