-- ===== src/Service/Listing.antt =====
-- What `Get` and `List` show of a torrent: its row, with the live state of the client over it.

use mathlib.Core.List.{Perm}
use torrents.Prelude.{
  ◌≡◌, refl, String, Option, none, some, inl, inr, List, [], ◌∷◌, ◌==◌, arith, ltb, if◌then◌else◌,
  Option-cases,
}
use torrents.Go.Exec.{Result, ok, err}
use torrents.Go.Time.{parse_time}
use torrents.Database.Defs.{Row, Torrent as DbTorrent, Env, Hash, tick}
use torrents.Database.Defs as Rows
use torrents.Database.Torrents.{scan_torrent}
use torrents.Database.Torrents.Table.{row_of}
use torrents.Database.Torrents.Exact.{get_found, get_missing}
use torrents.Database.Torrents.Valid.{IsValid, row_of-HasTimes}
use torrents.Database.Torrents.Order.{IsAlwaysUp, IsOrdered, scan_torrent-ok}
use torrents.Database.Torrents.Listed.{Scans, list-Scans}
use torrents.Engine.Path.{FilePath}
use torrents.Engine.Defs as Engine
use torrents.Engine.Defs.{World, Client, progress_of}
use torrents.Service.Defs as Service
use torrents.Service.Defs.{
  Torrent, TorrentEngine, TorrentRepository, PieceRepository, hydrate, hydrate_all, stored, overlay,
}
use torrents.Service.Wiring.{torrent_repository, torrent_engine, piece_repository}
use torrents.Service.Frame.{table}

module _ {C T M : Type 0} (env : Env) (client : Client (World C) T M) where
  -- The client's torrent of a hash.
  abbrev pub tracked : World C → String → Option T
  tracked w h = elim (env.from_hex_string h) [ err e ↦ none | ok k ↦ client.torrent k w ]

  -- What is shown of a torrent that the client has: its name and length once they are known, and
  -- what the client says of bytes and peers. Of any other the row is shown, without peers.
  abbrev pub IsLive : World C → Row → Option T → Torrent → Type 0
  IsLive w r none t =
      (t.name ≡ r.name)
      × (t.length ≡ r.length)
      × (t.bytes_completed ≡ r.bytes_completed)
      × (t.active_peers ≡ 0)
      × (t.seeders ≡ 0)
  IsLive w r (some x) t =
      (t.name ≡ (if client.name x w == "" then r.name else client.name x w))
      × (t.length ≡ (if ltb 0 (client.length x w) then client.length x w else r.length))
      × (t.bytes_completed ≡ client.bytes_completed x w)
      × (t.active_peers ≡ client.active_peers x w)
      × (t.seeders ≡ client.connected_seeders x w)

  abbrev pub Shown : World C → Row → Torrent → Type 0
  Shown w r t =
      (t.info_hash ≡ r.info_hash)
      × (t.magnet ≡ r.magnet)
      × (t.label ≡ r.label)
      × (t.target_dir ≡ r.target_dir)
      × (t.paused ≡ r.is_paused)
      × (parse_time r.created_at ≡ some t.created_at)
      × (parse_time r.updated_at ≡ some t.updated_at)
      × IsLive w r (tracked w r.info_hash) t

  abbrev pub AllShown : World C → List Row → List Torrent → Type 0
  AllShown w [] [] = Unit
  AllShown w (r ∷ rows) (t ∷ ts) = Shown w r t × AllShown w rows ts
  AllShown w [] (t ∷ ts) = ⊥
  AllShown w (r ∷ rows) [] = ⊥

  -- The answer to a look at one row, or at none.
  abbrev pub Finds : World C → Option Row → Result Torrent → Type 0
  Finds w none res = res ≡ err Service.err_torrent_not_found
  Finds w (some r) res = (t : Torrent) × (res ≡ ok t) × Shown w r t

module _ {C T M : Type 0} (env : Env) (client : Client (World C) T M) (data_dir : FilePath)
    (up : IsAlwaysUp env) where
  abbrev engine : TorrentEngine (World C)
  engine = torrent_engine env client data_dir

  abbrev repository : TorrentRepository (World C)
  repository = torrent_repository env

  abbrev pieces : PieceRepository (World C)
  pieces = piece_repository env

  hydrate-live :
      (d : DbTorrent) (w : World C)
      → hydrate engine repository pieces d w ≡ (
        elim (tracked env client w d.info_hash) [
          | none ↦ stored d
          | some x ↦ overlay d (progress_of env client data_dir d.info_hash x w)
        ],
        w,
      )
  unfolding hydrate Engine.snapshot Engine.with_torrent Engine.find
  hydrate-live d w = ground arith

  scanned_times :
      (r : Row) (d : DbTorrent)
      → scan_torrent r ≡ ok d
      → (parse_time r.created_at ≡ some d.created_at)
        × (parse_time r.updated_at ≡ some d.updated_at)
  unfolding scan_torrent Rows.parse_timestamps
  scanned_times r d scanned = elim (Option-cases (parse_time r.created_at)) [
    | inl bad ↦ absurd (ground (arith, scanned, bad))
    | inr (c, created) ↦ elim (Option-cases (parse_time r.updated_at)) [
      | inl bad ↦ absurd (ground (arith, scanned, created, bad))
      | inr (u, updated) ↦ ground (arith, scanned, created, updated)
    ]
  ]

  hydrate-Shown :
      (r : Row) (d : DbTorrent) (w : World C)
      → scan_torrent r ≡ ok d
      → Shown env client w r (hydrate engine repository pieces d w).0
  unfolding scan_torrent Rows.parse_timestamps
  hydrate-Shown r d w scanned =
      let (created, updated) = scanned_times r d scanned in
      rw (hydrate-live d w) (elim (Option-cases (tracked env client w r.info_hash)) [
        | inl gone ↦ ground (arith, gone, created, updated)
        | inr (x, there) ↦ ground (arith, there, created, updated)
      ])

  hydrate_all-AllShown :
      (rows : List Row) (ds : List DbTorrent) (w : World C)
      → Scans rows ds
      → (ts : List Torrent) × (hydrate_all engine repository pieces ds w ≡ (ok ts, w))
        × AllShown env client w rows ts
  unfolding hydrate_all
  hydrate_all-AllShown [] [] w h = ([], refl, tt)
  hydrate_all-AllShown [] (d ∷ ds) w h = elim h [ ]
  hydrate_all-AllShown (r ∷ rows) [] w h = elim h [ ]
  hydrate_all-AllShown (r ∷ rows) (d ∷ ds) w h =
      let (ts, rest, shown) = hydrate_all-AllShown rows ds w h.1 in
      (
        (hydrate engine repository pieces d w).0 ∷ ts,
        ground (arith, hydrate-live d w, rest),
        (hydrate-Shown r d w h.0, shown),
      )

  list_steps :
      (ds : List DbTorrent) (ts : List Torrent) (w : World C)
      → (repository.list w).0 ≡ ok ds
      → hydrate_all engine repository pieces ds (repository.list w).1
        ≡ (ok ts, (repository.list w).1)
      → Service.list engine repository pieces w ≡ (ok ts, (repository.list w).1)
  unfolding Service.list
  list_steps ds ts w found all = ground (arith, found, all)

  get_steps :
      (h : String) (d : DbTorrent) (w w' : World C)
      → repository.get h w ≡ (ok d, w')
      → Service.get engine repository pieces h w
        ≡ (ok (hydrate engine repository pieces d w').0, w')
  unfolding Service.get
  get_steps h d w w' found = ground (arith, found, hydrate-live d w')

  get_missing_steps :
      (h : String) (w : World C)
      → row_of h (table w) ≡ none
      → Service.get engine repository pieces h w
        ≡ (err Service.err_torrent_not_found, record w { store = tick w.store })
  unfolding Service.get Service.load_error
  get_missing_steps h w gone = ground (arith, get_missing env h w.store (up w.store.calls) gone)

  -- With no database call failing and a valid table: `List` succeeds and shows every row of the
  -- table once, each row followed by one whose `created_at` text is not smaller: the hash, magnet,
  -- label, directory, flag and the two times that the row has, with the name, the length, the bytes
  -- and the peers of the client's torrent where it has one. It leaves the table as it is.
  pub list-AllShown :
      (w : World C)
      → IsValid (table w)
      → let (res, w') = Service.list engine repository pieces w in
        (ts : List Torrent) × (rows : List Row) × (res ≡ ok ts)
        × AllShown env client w' rows ts
        × Perm rows (table w)
        × IsOrdered rows
        × (table w' ≡ table w)
  unfolding Service.list
  list-AllShown w v =
      let (ds, rows, found, kept, scans, perm, ordered) = list-Scans env w.store up v in
      let w1 = (repository.list w).1 in
      let (ts, all, shown) = hydrate_all-AllShown rows ds w1 scans in
      rw (list_steps ds ts w found all) (ts, rows, refl, shown, perm, ordered, kept)

  -- With no database call failing and a valid table: `Get` shows the row of the hash, its two times
  -- among the rest, with the live state of the client over it, and is not found exactly where the table has no such row. It leaves
  -- the table as it is.
  pub get-Finds :
      (h : String) (w : World C)
      → IsValid (table w)
      → let (res, w') = Service.get engine repository pieces h w in
        Finds env client w' (row_of h (table w)) res × (table w' ≡ table w)
  get-Finds h w v = elim (Option-cases (row_of h (table w))) [
    | inl gone ↦ rw (get_missing_steps h w gone) (rw gone (refl, refl))
    | inr (r, there) ↦
        let w1 : World C = record w { store = tick w.store } in
        let (d, scanned, _) = scan_torrent-ok r (row_of-HasTimes h (table w) v.times there) in
        let found : repository.get h w ≡ (ok d, w1) =
          ground (arith, get_found env h w.store (up w.store.calls) there, scanned) in
        rw (get_steps h d w w1 found) (
          rw there
            (((hydrate engine repository pieces d w1).0, refl, hydrate-Shown r d w1 scanned), refl))
  ]
