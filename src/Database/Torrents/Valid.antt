-- ===== src/Database/Torrents/Valid.antt =====
-- The invariant of the table `torrent`: the primary key holds, and the times of every row parse.
-- Every statement keeps it, whether it succeeds or fails.
use mathlib.Core.Path.{subst}
use torrents.Prelude.{
  Bool-cases, ℕ, ◌^◌, ◌<◌, String, Bool, not, ◌≡◌, refl, none, some, inl, inr, Option-cases, List,
  [], ◌∷◌, ◌++◌, arith, keep, change, All, if◌then◌else◌,
}
use torrents.Go.Time.{Time, Stamp, parse_time}
use torrents.Go.Time.RoundTrip.{parse_fraction-fraction_text}
use torrents.Database.Defs.{Row, Torrent, Store, Env, tick, format_time}
use torrents.Database.Torrents.{
  has_hash, create, delete_rows, delete, update_torrent, set_metadata, set_bytes_completed,
  set_paused, metadata_columns, bytes_completed_column, paused_column,
}
use torrents.Database.Torrents.Exact.{
  new_row, create_new, create_duplicate, create_down, delete_down, delete-store, update_down,
  update-store,
}
use torrents.Database.Torrents.Table.{
  HasUniqueKeys, KeepsKey, row_of, keep-HasUniqueKeys, change-HasUniqueKeys, append-HasUniqueKeys,
}

abbrev pub HasTime : Stamp → Type 0
HasTime s = (t : Time) × (parse_time s ≡ some t)

abbrev pub HasTimes : Row → Type 0
HasTimes r = HasTime r.created_at × HasTime r.updated_at

pub record IsValid (rows : List Row) : Type 0 where
  pub keys : HasUniqueKeys rows
  pub times : All HasTimes rows

-- The clock gives nanoseconds below a second.
abbrev pub IsClock : Env → Type 0
IsClock env = (n : ℕ) → (env.now n).nanos < 10 ^ 9

-- A time whose nanoseconds stay below a second parses to itself once it is formatted for a column.
pub parse_time-format_time : (t : Time) → t.nanos < 10 ^ 9 → parse_time (format_time t) ≡ some t
unfolding parse_time format_time
parse_time-format_time t h = rw (parse_fraction-fraction_text t.nanos h) refl

format_time-HasTime : (env : Env) (n : ℕ) → IsClock env → HasTime (format_time (env.now n))
format_time-HasTime env n c = (env.now n, parse_time-format_time (env.now n) (c n))

All-keep : (p : Row → Bool) (rows : List Row) → All HasTimes rows → All HasTimes (keep p rows)
All-keep p [] h = tt
All-keep p (r ∷ rows) h = pick (p r) (All-keep p rows h.1)
  where
    pick :
        (b : Bool)
        → All HasTimes (keep p rows)
        → All HasTimes (if b then r ∷ keep p rows else keep p rows)
    pick Bool.true k = (h.0, k)
    pick Bool.false k = k

All-append :
    (r : Row) (rows : List Row) → All HasTimes rows → HasTimes r → All HasTimes (rows ++ r ∷ [])
All-append r [] h p = (p, tt)
All-append r (q ∷ rows) h p = (h.0, All-append r rows h.1 p)

All-change :
    (p : Row → Bool) (f : Row → Row) (rows : List Row)
    → ((r : Row) → HasTimes r → HasTimes (f r))
    → All HasTimes rows
    → All HasTimes (change p f rows)
All-change p f [] k h = tt
All-change p f (r ∷ rows) k h = (pick (p r), All-change p f rows k h.1)
  where
    pick : (b : Bool) → HasTimes (if b then f r else r)
    pick Bool.true = k r h.0
    pick Bool.false = h.0

keep-IsValid : (p : Row → Bool) (rows : List Row) → IsValid rows → IsValid (keep p rows)
keep-IsValid p rows v = record {
  keys = keep-HasUniqueKeys p rows v.keys;
  times = All-keep p rows v.times;
}

change-IsValid :
    (p : Row → Bool) (f : Row → Row) (rows : List Row)
    → KeepsKey f
    → ((r : Row) → HasTimes r → HasTimes (f r))
    → IsValid rows
    → IsValid (change p f rows)
change-IsValid p f rows k t v = record {
  keys = change-HasUniqueKeys p f rows k v.keys;
  times = All-change p f rows t v.times;
}

append-IsValid :
    (r : Row) (rows : List Row)
    → row_of r.info_hash rows ≡ none
    → HasTimes r
    → IsValid rows
    → IsValid (rows ++ r ∷ [])
append-IsValid r rows e t v = record {
  keys = append-HasUniqueKeys r rows e v.keys;
  times = All-append r rows v.times t;
}

-- A new torrent: the row is written, or the table stays as it is.
pub create-IsValid :
    (env : Env) (t : Torrent) (s : Store)
    → IsClock env
    → IsValid s.torrents
    → IsValid (create env t s).1.torrents
create-IsValid env t s c v = elim (Option-cases (env.fault s.calls)) [
  | inr (e, down) ↦ rw (create_down env t s down) v
  | inl up ↦ elim (Option-cases (row_of t.info_hash s.torrents)) [
    | inr (r, old) ↦ rw (create_duplicate env t s up old) v
    | inl new ↦ rw (create_new env t s up new) (
        append-IsValid (new_row t (format_time (env.now s.calls))) s.torrents new
          (format_time-HasTime env s.calls c, format_time-HasTime env s.calls c) v)
  ]
]

delete_rows-IsValid :
    (h : String) (s : Store) → IsValid s.torrents → IsValid (delete_rows h s).torrents
unfolding delete_rows
delete_rows-IsValid h s v = elim (Option-cases (row_of h s.torrents)) [
  | inl missing ↦ rw (missing, delete_rows) v
  | inr (r, found) ↦ rw (found, delete_rows) (keep-IsValid (λ q. not (has_hash h q)) s.torrents v)
]

pub delete-IsValid :
    (env : Env) (h : String) (s : Store) → IsValid s.torrents → IsValid (delete env h s).1.torrents
delete-IsValid env h s v = elim (Option-cases (env.fault s.calls)) [
  | inr (e, down) ↦ rw (delete_down env h s down) v
  | inl up ↦ rw (delete-store env h s up) (delete_rows-IsValid h (tick s) v)
]

update-IsValid :
    (env : Env) (h : String) (f : Stamp → Row → Row) (s : Store)
    → ((now : Stamp) → KeepsKey (f now))
    → ((now : Stamp) (r : Row) → HasTime now → HasTimes r → HasTimes (f now r))
    → IsClock env
    → IsValid s.torrents
    → IsValid (update_torrent env h f s).1.torrents
update-IsValid env h f s k t c v = elim (Option-cases (env.fault s.calls)) [
  | inr (e, down) ↦ rw (update_down env h f s down) v
  | inl up ↦ rw (update-store env h f s up) (
      change-IsValid (has_hash h) (f now) s.torrents (k now)
        (λ r q. t now r (format_time-HasTime env s.calls c) q) v)
]
  where
    now : Stamp
    now = format_time (env.now s.calls)

module _ (env : Env) (h : String) (s : Store) (c : IsClock env) (v : IsValid s.torrents) where
  pub set_metadata-IsValid :
      (name : String) (length : ℕ) → IsValid (set_metadata env h name length s).1.torrents
  unfolding set_metadata
  set_metadata-IsValid name length =
      update-IsValid env h (metadata_columns name length) s (λ now r. refl) (λ now r t q. (q.0, t))
        c v

  pub set_bytes_completed-IsValid : (n : ℕ) → IsValid (set_bytes_completed env h n s).1.torrents
  unfolding set_bytes_completed
  set_bytes_completed-IsValid n =
      update-IsValid env h (bytes_completed_column n) s (λ now r. refl) (λ now r t q. (q.0, t)) c v

  pub set_paused-IsValid : (paused : Bool) → IsValid (set_paused env h paused s).1.torrents
  unfolding set_paused
  set_paused-IsValid paused =
      update-IsValid env h (paused_column paused) s (λ now r. refl) (λ now r t q. (q.0, t)) c v

-- A statement that writes to the table.
pub data Statement : Type 0 where
  create_stmt : Torrent → Statement
  delete_stmt : String → Statement
  set_metadata_stmt : String → String → ℕ → Statement
  set_bytes_completed_stmt : String → ℕ → Statement
  set_paused_stmt : String → Bool → Statement

abbrev pub run : Env → Statement → Store → Store
run env (create_stmt t) s = (create env t s).1
run env (delete_stmt h) s = (delete env h s).1
run env (set_metadata_stmt h name length) s = (set_metadata env h name length s).1
run env (set_bytes_completed_stmt h n) s = (set_bytes_completed env h n s).1
run env (set_paused_stmt h paused) s = (set_paused env h paused s).1

abbrev pub run_all : Env → List Statement → Store → Store
run_all env [] s = s
run_all env (st ∷ sts) s = run_all env sts (run env st s)

pub run-IsValid :
    (env : Env) (st : Statement) (s : Store)
    → IsClock env
    → IsValid s.torrents
    → IsValid (run env st s).torrents
run-IsValid env (create_stmt t) s c v = create-IsValid env t s c v
run-IsValid env (delete_stmt h) s c v = delete-IsValid env h s v
run-IsValid env (set_metadata_stmt h name length) s c v =
    set_metadata-IsValid env h s c v name length
run-IsValid env (set_bytes_completed_stmt h n) s c v = set_bytes_completed-IsValid env h s c v n
run-IsValid env (set_paused_stmt h paused) s c v = set_paused-IsValid env h s c v paused

-- Where the clock keeps nanoseconds below a second, any sequence of writing statements, each of
-- which may fail, keeps the table valid: no info hash occurs twice and the times of every row
-- parse.
pub run_all-IsValid :
    (env : Env) (sts : List Statement) (s : Store)
    → IsClock env
    → IsValid s.torrents
    → IsValid (run_all env sts s).torrents
run_all-IsValid env [] s c v = v
run_all-IsValid env (st ∷ sts) s c v =
    run_all-IsValid env sts (run env st s) c (run-IsValid env st s c v)

pub row_of-HasTimes :
    (h : String) (rows : List Row) {r : Row}
    → All HasTimes rows
    → row_of h rows ≡ some r
    → HasTimes r
row_of-HasTimes h [] t e = cc
row_of-HasTimes h (q ∷ rows) {r} t e = elim (Bool-cases (has_hash h q)) [
  | inl same ↦ subst HasTimes {x = q} {y = r} (ground arith) t.0
  | inr other ↦ row_of-HasTimes h rows {r = r} t.1 (ground arith)
]
