-- ===== src/Service/Adding.antt =====
-- `AddMagnet` on the server: a torrent that the database has already, and one that it has not.
use torrents.Prelude.{
  String, false, ◌≡◌, refl, ap, ◌∙◌, Option, none, some, inl, inr, ◌==◌, eq_iff, arith,
  if◌then◌else◌, Option-cases,
}
use torrents.Go.Exec.{Result, ok, err, Result-cases, with_result}
use torrents.Go.Errors.{wrap}
use torrents.Database.Defs.{Row, Torrent, Env, tick, format_time}
use torrents.Database.Torrents.Table.{row_of}
use mathlib.Core.Option
use torrents.Database.Torrents.Exact.{create_duplicate, create_new, new_row, get_found, get_missing}
use torrents.Database.Torrents.Table.{row_of-append}
use torrents.Database.Torrents.{scan_torrent}
use torrents.Database.Torrents.Order.{IsAlwaysUp}
use torrents.Engine.Path.{FilePath}
use torrents.Engine.Defs.{World, Client}
use torrents.Service.Defs.{
  TorrentEngine, TorrentRepository, PieceRepository, AddOptions, Torrent as Shown, zero_time,
  persist, add_magnet, get, hydrate, persist_metadata, err_torrent_already_exists,
}
use torrents.Service.Wiring.{torrent_repository, torrent_engine, piece_repository}
use torrents.Service.Frame.{SparesTable, table, paused_of, state-snapshot, table-add_magnet}
use torrents.Service.Pausing.{persist_metadata_flag}

module _ {C T M : Type 0} (env : Env) (client : Client (World C) T M) (data_dir : FilePath)
    (up : IsAlwaysUp env) where
  abbrev engine : TorrentEngine (World C)
  engine = torrent_engine env client data_dir

  abbrev repository : TorrentRepository (World C)
  repository = torrent_repository env

  abbrev pieces : PieceRepository (World C)
  pieces = piece_repository env

  abbrev given : String → String → AddOptions → Torrent
  given h uri opts = record {
    info_hash = h;
    magnet = uri;
    label = opts.label;
    target_dir = opts.target_dir;
    paused = false;
    name = "";
    length = 0;
    bytes_completed = 0;
    created_at = zero_time;
    updated_at = zero_time;
  }

  table-get : (h : String) (w : World C) → table (get engine repository pieces h w).1 ≡ table w
  unfolding get hydrate
  table-get h w = elim (Option-cases (row_of h (table w))) [
    | inl gone ↦ ground (arith, get_missing env h w.store (up w.store.calls) gone)
    | inr (r, there) ↦ elim (Result-cases (scan_torrent r)) [
      | inl (t, x) ↦ ground (
        arith,
        get_found env h w.store (up w.store.calls) there,
        x,
        state-snapshot env client data_dir t.info_hash (record w { store = tick w.store }),
      )
      | inr (e, x) ↦ ground (arith, get_found env h w.store (up w.store.calls) there, x)
    ]
  ]

  -- A new row is not paused, and the other rows stay.
  create_flag :
      (t : Torrent) (w : World C) (j : String)
      → row_of t.info_hash (table w) ≡ none
      → paused_of j (repository.create t w).1
        ≡ (if j == t.info_hash then some false else paused_of j w)
  create_flag t w j new = ground (
    arith,
    create_new env t w.store (up w.store.calls) new,
    row_of-append j (table w) (new_row t (format_time (env.now w.store.calls))),
    eq_iff j t.info_hash,
    eq_iff t.info_hash j,
  )

  -- With no database call failing and a client that spares the table `torrent`: adding a magnet whose
  -- torrent the engine accepts and the database does not have adds the torrent unpaused, and leaves
  -- the paused flags and the set of all others as they were.
  pub add_new :
      (spares : SparesTable client) (uri h : String) (opts : AddOptions) (w w1 : World C)
      (j : String)
      → engine.add_magnet uri w ≡ (ok h, w1)
      → row_of h (table w1) ≡ none
      → paused_of j (add_magnet engine repository pieces uri opts w).1
        ≡ (if j == h then some false else paused_of j w)
  unfolding add_magnet persist
  add_new spares uri h opts w w1 j taken new =
      let w2 = (repository.create (given h uri opts) w1).1 in
      let w3 = persist_metadata engine repository pieces h w2 in
      ground (
        arith,
        taken,
        create_new env (given h uri opts) w1.store (up w1.store.calls) new,
        table-get h w3,
        persist_metadata_flag env client data_dir up spares h w2 j,
        ap (λ rows. Option.map (λ (r : Row). r.is_paused) (row_of j rows))
            (table-add_magnet env client data_dir uri w spares),
        create_flag (given h uri opts) w1 j new,
      )

  -- The end of an add: what the caller gets and what becomes of the table and of the torrent client.
  abbrev pub Ends : Result String → Option Row → World C → World C → Result Shown × World C → Type 0
  Ends (err e) there w w1 (r, w') =
      (r ≡ err (wrap "failed to add magnet" e)) × (table w' ≡ table w) × (w' ≡ w1)
  Ends (ok h) (some row) w w1 (r, w') =
      (r ≡ err err_torrent_already_exists) × (table w' ≡ table w) × (w'.client ≡ w1.client)
  Ends (ok h) none w w1 (r, w') = paused_of h w' ≡ some false

  -- With no database call failing and a client that spares the table `torrent`: adding a magnet that
  -- the engine refuses fails with the engine's error. Where the engine accepts it and the table has
  -- its torrent already, paused or not, the add fails with already-exists. Both leave the table
  -- `torrent` as it was and the torrent client as the engine's add left it. A torrent that the table
  -- does not have is there afterwards, unpaused.
  pub add_magnet-Ends :
      (spares : SparesTable client) (uri : String) (opts : AddOptions) (w : World C)
      → let (a, w1) = engine.add_magnet uri w in
        Ends a
          (elim a [ err e ↦ none | ok h ↦ row_of h (table w) ])
          w
          w1
          (add_magnet engine repository pieces uri opts w)
  unfolding add_magnet persist
  add_magnet-Ends spares uri opts w =
      let w1 = (engine.add_magnet uri w).1 in
      let kept = table-add_magnet env client data_dir uri w spares in
      elim (Result-cases (engine.add_magnet uri w).0) [
        | inr (e, refused) ↦ rw refused (ground (arith, refused, kept))
        | inl (h, taken) ↦ elim (Option-cases (row_of h (table w))) [
          | inr (r, there) ↦ rw taken (
              rw there (
                ground (
                  arith,
                  taken,
                  there,
                  kept,
                  create_duplicate env (given h uri opts) w1.store (up w1.store.calls)
                      (ap (row_of h) kept ∙ there),
                )))
          | inl new ↦ rw taken (
              rw new (
                add_new spares uri h opts w w1 h (with_result (engine.add_magnet uri w) taken)
                  (ap (row_of h) kept ∙ new)
                ∙ rw ((eq_iff h h).1 refl) refl))
        ]
      ]
