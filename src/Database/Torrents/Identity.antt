-- ===== src/Database/Torrents/Identity.antt =====
-- What is never rewritten of a row: no statement but the row's own deletion changes it.
use mathlib.Core.Option
use torrents.Prelude.{
  String, Bool, false, not, ◌≡◌, refl, ◌∙◌, some, inl, inr, Option, Option-cases, Bool-cases, List,
  [], ◌∷◌, ◌++◌, ◌==◌, eq_iff, arith, keep, change,
}
use torrents.Go.Time.{Stamp}
use torrents.Database.Defs.{Row, Torrent, Store, Env, format_time}
use torrents.Database.Torrents.{
  has_hash, create, delete_rows, delete, update_torrent, set_metadata, set_bytes_completed,
  set_paused, metadata_columns, bytes_completed_column, paused_column,
}
use torrents.Database.Torrents.Exact.{
  create_new, create_duplicate, create_down, delete_down, delete-store, update_down, update-store,
}
use torrents.Database.Torrents.Table.{row_of}
use torrents.Database.Torrents.Valid.{
  Statement, create_stmt, delete_stmt, set_metadata_stmt, set_bytes_completed_stmt, set_paused_stmt,
  run,
}

pub record Identity : Type 0 where
  pub magnet : String
  pub label : String
  pub target_dir : String
  pub created_at : Stamp

abbrev pub identity : Row → Identity
identity r = record {
  magnet = r.magnet;
  label = r.label;
  target_dir = r.target_dir;
  created_at = r.created_at;
}

abbrev pub identity_of : String → List Row → Option Identity
identity_of h rows = Option.map identity (row_of h rows)

abbrev pub deletes_row : String → Statement → Bool
deletes_row h (delete_stmt j) = j == h
deletes_row h _ = false

identity_of-change :
    (h : String) (p : Row → Bool) (f : Row → Row) (rows : List Row)
    → ((r : Row) → (f r).info_hash ≡ r.info_hash)
    → ((r : Row) → identity (f r) ≡ identity r)
    → identity_of h (change p f rows) ≡ identity_of h rows
identity_of-change h p f [] k i = refl
identity_of-change h p f (r ∷ rows) k i =
    ground (arith, identity_of-change h p f rows k i, k r, i r)

identity_of-keep :
    (h j : String) (rows : List Row)
    → j == h ≡ false
    → identity_of h (keep (λ r. not (has_hash j r)) rows) ≡ identity_of h rows
identity_of-keep h j [] ne = refl
identity_of-keep h j (r ∷ rows) ne = ground (
  arith,
  identity_of-keep h j rows ne,
  eq_iff r.info_hash h,
  eq_iff r.info_hash j,
  eq_iff j h,
  ne,
)

identity_of-append :
    (h : String) (rows : List Row) (r : Row) {v : Identity}
    → identity_of h rows ≡ some v
    → identity_of h (rows ++ r ∷ []) ≡ some v
identity_of-append h [] r e = absurd (ground (arith, e))
identity_of-append h (q ∷ rows) r {v} e = elim (Bool-cases (has_hash h q)) [
  | inl here ↦ ground (arith, e, here)
  | inr other ↦ rw other (identity_of-append h rows r (stays other))
]
  where
    stays : has_hash h q ≡ false → identity_of h rows ≡ some v
    stays other = ground (arith, e, other)

module _ (env : Env) (h : String) (s : Store) {v : Identity}
    (there : identity_of h s.torrents ≡ some v) where
  update-identity_of :
      (j : String) (f : Stamp → Row → Row)
      → ((now : Stamp) (r : Row) → (f now r).info_hash ≡ r.info_hash)
      → ((now : Stamp) (r : Row) → identity (f now r) ≡ identity r)
      → identity_of h (update_torrent env j f s).1.torrents ≡ some v
  update-identity_of j f k i = elim (Option-cases (env.fault s.calls)) [
    | inr (e, down) ↦ rw (update_down env j f s down) there
    | inl up ↦
        let now = format_time (env.now s.calls) in
        rw (update-store env j f s up)
          (identity_of-change h (has_hash j) (f now) s.torrents (k now) (i now) ∙ there)
  ]

  create-identity_of : (t : Torrent) → identity_of h (create env t s).1.torrents ≡ some v
  create-identity_of t = elim (Option-cases (env.fault s.calls)) [
    | inr (e, down) ↦ rw (create_down env t s down) there
    | inl up ↦ elim (Option-cases (row_of t.info_hash s.torrents)) [
      | inr (r, old) ↦ rw (create_duplicate env t s up old) there
      | inl new ↦ rw (create_new env t s up new) (identity_of-append h s.torrents _ there)
    ]
  ]

  delete-identity_of :
      (j : String) → j == h ≡ false → identity_of h (delete env j s).1.torrents ≡ some v
  unfolding delete_rows
  delete-identity_of j ne = elim (Option-cases (env.fault s.calls)) [
    | inr (e, down) ↦ rw (delete_down env j s down) there
    | inl up ↦ elim (Option-cases (row_of j s.torrents)) [
      | inl missing ↦ rw (delete-store env j s up) (rw (missing, delete_rows) there)
      | inr (r, found) ↦
          rw (delete-store env j s up)
            (rw (found, delete_rows) (identity_of-keep h j s.torrents ne ∙ there))
    ]
  ]

  -- Any statement but the one that deletes the row, whether it succeeds or fails.
  pub run-identity_of :
      (st : Statement) → deletes_row h st ≡ false → identity_of h (run env st s).torrents ≡ some v
  unfolding set_metadata set_bytes_completed set_paused
  run-identity_of (create_stmt t) ne = create-identity_of t
  run-identity_of (delete_stmt j) ne = delete-identity_of j ne
  run-identity_of (set_metadata_stmt j name length) ne =
      update-identity_of j (metadata_columns name length) (λ now r. refl) (λ now r. refl)
  run-identity_of (set_bytes_completed_stmt j n) ne =
      update-identity_of j (bytes_completed_column n) (λ now r. refl) (λ now r. refl)
  run-identity_of (set_paused_stmt j paused) ne =
      update-identity_of j (paused_column paused) (λ now r. refl) (λ now r. refl)
