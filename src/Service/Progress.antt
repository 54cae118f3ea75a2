-- ===== src/Service/Progress.antt =====
-- The progress that `Pause` records before it takes a torrent out of the engine.
use mathlib.Core.Option
use torrents.Prelude.{
  ℕ, suc, String, true, false, ◌≡◌, refl, ap, ◌∙◌, Option, none, some, List, ◌==◌, eq_refl, arith,
  if◌then◌else◌,
}
use torrents.Go.Exec.{ok}
use torrents.Database.Defs.{Row, Env, Hash, format_time}
use torrents.Database.Torrents.Table.{row_of}
use torrents.Database.Torrents.Keyed.{set_columns}
use torrents.Database.Torrents.{bytes_completed_column, paused_column}
use torrents.Database.Torrents.Order.{IsAlwaysUp}
use torrents.Engine.Path.{FilePath}
use torrents.Engine.Defs as Engine
use torrents.Engine.Defs.{World, Client, progress_of}
use torrents.Engine.Removal.{with_torrent_found}
use torrents.Service.Defs.{
  TorrentEngine, TorrentRepository, PieceRepository, persist_bytes_completed, remove_from_engine,
  pause,
}
use torrents.Service.Wiring.{torrent_repository, torrent_engine, piece_repository}
use torrents.Service.Frame.{SparesTable, table}
use torrents.Service.Pausing.{remove_from_engine_ok, table-remove_from_engine}

-- The recorded progress of a torrent.
abbrev pub completed_of : String → List Row → Option ℕ
completed_of h rows = Option.map (λ r. r.bytes_completed) (row_of h rows)

twice_map :
    (f g : Row → Row) (n : ℕ) (o p q : Option Row)
    → p ≡ Option.map f o
    → q ≡ Option.map g p
    → ((r : Row) → (f r).bytes_completed ≡ n)
    → ((r : Row) → (g r).bytes_completed ≡ r.bytes_completed)
    → Option.map (λ r. r.bytes_completed) q ≡ Option.map (λ _. n) o
twice_map f g n none p q e k a b = rw k (rw e refl)
twice_map f g n (some r) p q e k a b = rw k (rw e (ap some (b (f r) ∙ a r)))

own_row : (h : String) (o p q : Option Row) → o ≡ (if h == h then p else q) → o ≡ p
own_row h o p q e = e ∙ rw (eq_refl h) refl

module _ {C T M : Type 0} (env : Env) (client : Client (World C) T M) (data_dir : FilePath)
    (up : IsAlwaysUp env) (spares : SparesTable client) where
  abbrev engine : TorrentEngine (World C)
  engine = torrent_engine env client data_dir

  abbrev repository : TorrentRepository (World C)
  repository = torrent_repository env

  abbrev pieces : PieceRepository (World C)
  pieces = piece_repository env

  persist_tracked :
      (h : String) (w : World C) {t : T}
      → Engine.find env client data_dir h w ≡ ok (some t)
      → persist_bytes_completed engine repository pieces h w
        ≡ (repository.set_bytes_completed h (client.bytes_completed t w) w).1
  unfolding persist_bytes_completed Engine.snapshot
  persist_tracked h w {t} found = ground (
    arith,
    with_torrent_found env client data_dir h
        (λ t w'. (ok (progress_of env client data_dir h t w'), w')) w found,
  )

  -- With no database call failing and a client that spares the table `torrent`: pausing a torrent
  -- that the engine tracks leaves the bytes that the client had completed in the torrent's row.
  pub pause_keeps_progress :
      (h : String) (w : World C) {t : T} {k : Hash}
      → env.from_hex_string h ≡ ok k
      → Engine.find env client data_dir h w ≡ ok (some t)
      → completed_of h (table (pause engine repository pieces h w).1)
        ≡ Option.map (λ _. client.bytes_completed t w) (row_of h (table w))
  unfolding pause
  pause_keeps_progress h w {t} parsed found =
      let n = client.bytes_completed t w in
      let w1 = persist_bytes_completed engine repository pieces h w in
      let w2 = (remove_from_engine engine repository pieces h false w1).1 in
      let w3 = (repository.set_paused h true w2).1 in
      let first =
        (set_columns env h "" n true w.store (up w.store.calls, up (suc w.store.calls))).2 in
      let second =
        (set_columns env h "" n true w2.store (up w2.store.calls, up (suc w2.store.calls))).0 in
      let f = bytes_completed_column n (format_time (env.now w.store.calls)) in
      let g = paused_column true (format_time (env.now w2.store.calls)) in
      let written : row_of h (table w1) ≡ Option.map f (row_of h (table w)) =
        ap (λ (v : World C). row_of h (table v)) (persist_tracked h w found)
        ∙ own_row h _ _ _ (first.1 h) in
      let kept : row_of h (table w2) ≡ row_of h (table w1) =
        ap (row_of h) (table-remove_from_engine env client data_dir up spares h false w1) in
      let flagged : row_of h (table w3) ≡ Option.map g (row_of h (table w1)) =
        own_row h _ _ _ (second.1 h) ∙ ap (Option.map g) kept in
      let both =
        twice_map f g n (row_of h (table w)) (row_of h (table w1)) (row_of h (table w3)) written
          flagged (λ r. refl) (λ r. refl) in
      ground (arith, remove_from_engine_ok env client data_dir up spares h w1 parsed, both)
