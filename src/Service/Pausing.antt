-- ===== src/Service/Pausing.antt =====
-- `Pause` and `Resume` on the server: the flag in the database and the torrent in the client.
use mathlib.Core.Option
use torrents.Prelude.{
  String, Bool, true, false, ◌≡◌, refl, ap, ◌∙◌, Option, none, some, inl, inr, ◌==◌, eq_iff, arith,
  if◌then◌else◌, Bool-cases, Option-cases,
}
use torrents.Go.Exec.{Result, ok, err, Result-cases, with_result}
use torrents.Database.Defs as Rows
use torrents.Database.Defs.{Row, Torrent, Store, Env, Hash, tick}
use torrents.Database.Torrents.Exact.{get_found, get_missing}
use torrents.Database.Torrents.Valid.{IsValid, row_of-HasTimes}
use torrents.Engine.Path.{FilePath}
use torrents.Engine.Defs as Engine
use torrents.Engine.Defs.{World, Client, err_not_found}
use torrents.Service.Defs.{
  TorrentEngine, TorrentRepository, PieceRepository, load_error, persist_metadata,
  persist_bytes_completed, remove_from_engine, pause, resume, err_torrent_not_found,
}
use torrents.Service.Methods.{resume_rolls_back, resume_takes_back, resume_missing}
use torrents.Service.Wiring.{torrent_repository, torrent_engine, piece_repository}
use torrents.Service.Frame.{
  SparesTable, table, paused_of, table-remove, state-snapshot, table-add_magnet, set_paused_flag,
  set_metadata_flag, set_bytes_completed_flag,
}
use torrents.Database.Torrents.Table.{row_of}
use torrents.Database.Torrents.Order.{IsAlwaysUp, scan_torrent-ok}
use torrents.Database.Torrents.{scan_torrent}
use torrents.Go.Time.{parse_time}

abbrev pub failed : {A : Type 0} → Result A → Bool
failed (ok a) = false
failed (err e) = true

twice_flag :
    (a b : Bool) (o : Option Bool)
    → Option.map (λ _. a) (Option.map (λ _. b) o) ≡ Option.map (λ _. a) o
twice_flag a b none = refl
twice_flag a b (some x) = refl

twice_if :
    (b : Bool) (o p : Option Bool)
    → o ≡ (if b then Option.map (λ _. false) p else p)
    → (if b then Option.map (λ _. true) o else o) ≡ (if b then Option.map (λ _. true) p else p)
twice_if true o p e = rw e (twice_flag true false p)
twice_if false o p e = e

absent_flag :
    {C : Type 0} (h j : String) (w : World C) (b : Bool)
    → row_of h (table w) ≡ none
    → paused_of j w ≡ (if j == h then Option.map (λ _. b) (paused_of j w) else paused_of j w)
absent_flag h j w b gone = elim (Bool-cases (j == h)) [
  | inl same ↦ rw (same, (eq_iff j h).0 same) (rw gone refl)
  | inr other ↦ rw other refl
]

scanned_magnet : (r : Row) (t : Torrent) → scan_torrent r ≡ ok t → t.magnet ≡ r.magnet
unfolding scan_torrent Rows.parse_timestamps
scanned_magnet r t scanned = elim (Option-cases (parse_time r.created_at)) [
  | inl bad ↦ absurd (ground (arith, scanned, bad))
  | inr (c, created) ↦ elim (Option-cases (parse_time r.updated_at)) [
    | inl bad ↦ absurd (ground (arith, scanned, created, bad))
    | inr (u, updated) ↦ ground (arith, scanned, created, updated)
  ]
]

module _ {C T M : Type 0} (env : Env) (client : Client (World C) T M) (data_dir : FilePath)
    (up : IsAlwaysUp env) (spares : SparesTable client) where
  abbrev engine : TorrentEngine (World C)
  engine = torrent_engine env client data_dir

  abbrev repository : TorrentRepository (World C)
  repository = torrent_repository env

  abbrev pieces : PieceRepository (World C)
  pieces = piece_repository env

  pub persist_bytes_completed_flag :
      (h : String) (w : World C) (j : String)
      → paused_of j (persist_bytes_completed engine repository pieces h w) ≡ paused_of j w
  unfolding persist_bytes_completed
  persist_bytes_completed_flag h w j = elim (Result-cases (engine.snapshot h w).0) [
    | inr (e, x) ↦
        rw (x, persist_bytes_completed) (ap (paused_of j) (state-snapshot env client data_dir h w))
    | inl (p, x) ↦
        rw (x, persist_bytes_completed)
          (set_bytes_completed_flag env up h p.bytes_completed (engine.snapshot h w).1 j
            ∙ ap (paused_of j) (state-snapshot env client data_dir h w))
  ]

  pub persist_metadata_flag :
      (h : String) (w : World C) (j : String)
      → paused_of j (persist_metadata engine repository pieces h w) ≡ paused_of j w
  unfolding persist_metadata
  persist_metadata_flag h w j = elim (Result-cases (engine.snapshot h w).0) [
    | inr (e, x) ↦
        rw (x, persist_metadata) (ap (paused_of j) (state-snapshot env client data_dir h w))
    | inl (p, x) ↦ elim (Bool-cases (p.name == "")) [
      | inl n ↦
          rw (x, n, persist_metadata) (ap (paused_of j) (state-snapshot env client data_dir h w))
      | inr n ↦
          rw (x, n, persist_metadata)
            (set_metadata_flag env up h p.name p.length (engine.snapshot h w).1 j
              ∙ ap (paused_of j) (state-snapshot env client data_dir h w))
    ]
  ]

  -- For a hash that parses, taking the torrent out of the engine without its files succeeds.
  pub remove_from_engine_ok :
      (h : String) (w : World C) {k : Hash}
      → env.from_hex_string h ≡ ok k
      → (remove_from_engine engine repository pieces h false w).0 ≡ ok tt
  unfolding remove_from_engine Engine.remove Engine.remove_torrent Engine.with_torrent Engine.find
  remove_from_engine_ok h w parsed = ground arith

  pub table-remove_from_engine :
      (h : String) (d : Bool) (w : World C)
      → table (remove_from_engine engine repository pieces h d w).1 ≡ table w
  unfolding remove_from_engine
  table-remove_from_engine h d w = ground (arith, table-remove env client data_dir h d w spares)

  -- With no database call failing and a client that spares the table `torrent`: pausing a hash that
  -- parses succeeds exactly when the torrent is managed and reports not-found otherwise, sets the
  -- torrent's flag, and leaves the flags of all others and the set of managed torrents as they are.
  pub pause_lem :
      (h : String) (w : World C) (j : String) {k : Hash}
      → env.from_hex_string h ≡ ok k
      → let (r, w') = pause engine repository pieces h w in
        (r ≡ elim (paused_of h w) [ none ↦ err err_torrent_not_found | some _ ↦ ok tt ])
        × (paused_of j w'
            ≡ (if j == h then Option.map (λ _. true) (paused_of j w) else paused_of j w))
  unfolding pause load_error
  pause_lem h w j parsed =
      let w1 = persist_bytes_completed engine repository pieces h w in
      let w2 = (remove_from_engine engine repository pieces h false w1).1 in
      let same : (i : String) → paused_of i w2 ≡ paused_of i w = λ i.
        ap (λ rows. Option.map (λ (r : Row). r.is_paused) (row_of i rows))
          (table-remove_from_engine h false w1)
        ∙ persist_bytes_completed_flag h w i in
      let flag = set_paused_flag env up h true w2 j in
      let done = remove_from_engine_ok h w1 parsed in
      elim (Option-cases (paused_of h w)) [
        | inl gone ↦ ground (arith, done, flag.0, flag.1, same h, same j, gone)
        | inr (b, there) ↦ ground (arith, done, flag.0, flag.1, same h, same j, there)
      ]

  -- Reading the row of a torrent on a valid table.
  pub get_missing_row :
      (h : String) (w : World C)
      → row_of h (table w) ≡ none
      → repository.get h w ≡ (err Rows.err_torrent_not_found, record w { store = tick w.store })
  get_missing_row h w gone = ground (arith, get_missing env h w.store (up w.store.calls))

  pub get_found_row :
      (h : String) (w : World C) {r : Row}
      → IsValid (table w)
      → row_of h (table w) ≡ some r
      → (t : Torrent) × (repository.get h w ≡ (ok t, record w { store = tick w.store }))
        × (t.magnet ≡ r.magnet)
  get_found_row h w {r} v there =
      let (t, scanned, _) = scan_torrent-ok r (row_of-HasTimes h (table w) v.times there) in
      (
        t,
        ground (arith, get_found env h w.store (up w.store.calls) there, scanned),
        scanned_magnet r t scanned,
      )

  engine_flag :
      (uri : String) (w : World C) (j : String)
      → paused_of j (engine.add_magnet uri w).1 ≡ paused_of j w
  engine_flag uri w j =
      ap (λ rows. Option.map (λ (r : Row). r.is_paused) (row_of j rows))
        (table-add_magnet env client data_dir uri w spares)

  -- With no database call failing, a client that spares the table `torrent` and a valid table:
  -- resuming a torrent sets its flag to whether the call failed; the flags of all others and the set
  -- of managed torrents stay as they are.
  pub resume_lem :
      (h : String) (w : World C) (j : String)
      → IsValid (table w)
      → let (r, w') = resume engine repository pieces h w in
        paused_of j w'
        ≡ (if j == h then Option.map (λ _. failed r) (paused_of j w) else paused_of j w)
  unfolding resume load_error
  resume_lem h w j v = elim (Option-cases (row_of h (table w))) [
    | inl gone ↦
        rw
          (resume_missing engine repository pieces h w (record w { store = tick w.store })
            Rows.err_torrent_not_found (get_missing_row h w gone) refl)
          (absent_flag h j w true gone)
    | inr (r, there) ↦
        let (t, found, magnet) = get_found_row h w v there in
        let w1 : World C = record w { store = tick w.store } in
        let w2 = (repository.set_paused h false w1).1 in
        let unpaused =
          with_result (repository.set_paused h false w1)
            ((set_paused_flag env up h false w1 h).0 ∙ rw there refl) in
        elim (Result-cases (engine.add_magnet t.magnet w2).0) [
          | inr (e, refused) ↦
              let w3 = (engine.add_magnet t.magnet w2).1 in
              rw
                (resume_rolls_back engine repository pieces h t w w1 w2 w3 e found unpaused
                  (with_result (engine.add_magnet t.magnet w2) refused))
                ((set_paused_flag env up h true w3 j).1
                  ∙ twice_if (j == h) (paused_of j w3) (paused_of j w)
                      (engine_flag t.magnet w2 j ∙ (set_paused_flag env up h false w1 j).1))
          | inl (k, taken) ↦
              let w3 = (engine.add_magnet t.magnet w2).1 in
              rw
                (resume_takes_back engine repository pieces h k t w w1 w2 w3 found unpaused
                  (with_result (engine.add_magnet t.magnet w2) taken))
                (persist_metadata_flag k w3 j
                  ∙ engine_flag t.magnet w2 j
                  ∙ (set_paused_flag env up h false w1 j).1)
        ]
  ]
