-- ===== src/Service/Removing.antt =====
-- `Remove` on the server: what is left of a torrent in the database, in the cache and on disk.
use Prim.Native.String.{◌++◌ as append}
use torrents.Prelude.{
  ℕ, suc, String, Bool, true, false, ◌||◌, not, ◌≡◌, refl, ap, ◌∙◌, none, some, inl, inr, List, [],
  ◌∷◌, ◌==◌, eq_refl, arith, if◌then◌else◌, Option-cases,
}
use torrents.Go.Exec.{ok, err, Result-cases, with_result}
use torrents.Database.Defs.{Row, Torrent, Env, Hash, PieceKey, tick}
use torrents.Database.Pieces as Pieces
use torrents.Database.Pieces.{map_get}
use torrents.Database.Pieces.Coherent.{piece_of, map_get-keep, piece_of-keep}
use torrents.Database.Torrents.Table.{row_of}
use torrents.Database.Torrents.Keyed.{answer, delete-Deletes}
use torrents.Database.Torrents.Valid.{IsValid}
use torrents.Database.Torrents.Order.{IsAlwaysUp}
use torrents.Engine.Path.{FilePath, join}
use torrents.Engine.Defs as Engine
use torrents.Engine.Defs.{World, Client}
use torrents.Service.Defs.{
  TorrentEngine, TorrentRepository, PieceRepository, load_error, is_complete, remove_from_engine,
  remove,
}
use torrents.Service.Wiring.{torrent_repository, torrent_engine, piece_repository}
use torrents.Engine.Removal.{DropSparesDisk, remove_keeps_files}
use torrents.Service.Frame.{SparesTable, table, state-snapshot}
use torrents.Service.Pausing.{get_found_row, table-remove_from_engine}

-- `os.RemoveAll` does not fail.
abbrev pub NoRemoveFault : {C T M : Type 0} → Client (World C) T M → Type 0
NoRemoveFault {C} client = (p : FilePath) (w : World C) → client.remove_fault p w ≡ none

module _ {C T M : Type 0} (env : Env) (client : Client (World C) T M) (data_dir : FilePath)
    (up : IsAlwaysUp env) (spares : SparesTable client) where
  abbrev engine : TorrentEngine (World C)
  engine = torrent_engine env client data_dir

  abbrev repository : TorrentRepository (World C)
  repository = torrent_repository env

  abbrev pieces : PieceRepository (World C)
  pieces = piece_repository env

  -- Asking whether a torrent is complete changes nothing.
  state-is_complete : (t : Torrent) (w : World C) → (is_complete engine repository pieces t w).1 ≡ w
  unfolding is_complete
  state-is_complete t w = elim (Result-cases (engine.snapshot t.info_hash w).0) [
    | inl (p, x) ↦ rw (x, is_complete) (state-snapshot env client data_dir t.info_hash w)
    | inr (e, x) ↦ rw (x, is_complete) (state-snapshot env client data_dir t.info_hash w)
  ]

  -- The parts of a removal whose engine step succeeds, one after the other.
  remove_steps :
      (h : String) (d : Bool) (w : World C) (t : Torrent) (w1 w2 : World C)
      → repository.get h w ≡ (ok t, w1)
      → remove_from_engine engine repository pieces h
          (d || not (is_complete engine repository pieces t w1).0)
          w1
        ≡ (ok tt, w2)
      → remove engine repository pieces h d w ≡ elim (repository.delete h w2).0 [
        | ok _ ↦ (ok tt, pieces.forget h (repository.delete h w2).1)
        | err e ↦ (err (load_error "failed to delete torrent" e), (repository.delete h w2).1)
      ]
  unfolding remove
  remove_steps h d w t w1 w2 got taken = ground (arith, got, taken, state-is_complete t w1)

  remove_paths_ok :
      (paths : List FilePath) (w : World C)
      → NoRemoveFault client
      → (Engine.remove_paths env client data_dir paths w).0 ≡ ok tt
  unfolding Engine.remove_paths
  remove_paths_ok [] w n = refl
  remove_paths_ok (p ∷ ps) w n = rw (n p w, Engine.remove_paths) (remove_paths_ok ps _ n)

  remove_from_engine_clean :
      (h : String) (d : Bool) (w : World C) {k : Hash}
      → env.from_hex_string h ≡ ok k
      → NoRemoveFault client
      → (remove_from_engine engine repository pieces h d w).0 ≡ ok tt
  unfolding remove_from_engine Engine.remove Engine.remove_torrent Engine.with_torrent Engine.find
  remove_from_engine_clean h d w {k} parsed n = elim (Option-cases (client.torrent k w)) [
    | inl gone ↦ ground (arith, parsed, gone)
    | inr (t, there) ↦ ground (
      arith,
      parsed,
      there,
      remove_paths_ok
          (join data_dir (client.name t w) ∷ join data_dir (append (client.name t w) ".part") ∷ [])
          (client.drop t w) n,
    )
  ]

  -- `Forget` leaves no cache entry of the hash.
  forgotten :
      (h : String) (pk : PieceKey) (w : World C)
      → (if env.hex_string pk.info_hash == h
          then map_get pk (pieces.forget h w).store.cache
          else none)
        ≡ none
  unfolding Pieces.forget
  forgotten h pk w = ground (arith, map_get-keep env h pk w.store.cache)

  -- With no database call and no `os.RemoveAll` failing, a client that spares the table `torrent`
  -- and a valid table: removing a managed torrent whose hash parses succeeds, and nothing of it is
  -- left: no row, no piece completion and no cache entry. The rows of all other torrents stay.
  pub remove_lem :
      (h : String) (d : Bool) (w : World C) {r : Row} {k : Hash}
      → row_of h (table w) ≡ some r
      → env.from_hex_string h ≡ ok k
      → IsValid (table w)
      → NoRemoveFault client
      → let (res, w') = remove engine repository pieces h d w in
        (res ≡ ok tt)
        × ((j : String) → row_of j (table w') ≡ (if j == h then none else row_of j (table w)))
        × ((n : ℕ) → piece_of h n w'.store.completions ≡ none)
        × ((pk : PieceKey)
            → (if env.hex_string pk.info_hash == h then map_get pk w'.store.cache else none) ≡ none)
  unfolding Pieces.forget
  remove_lem h d w {r} there parsed v n =
      let (t, found, _) = get_found_row env client data_dir up spares h w v there in
      let w1 : World C = record w { store = tick w.store } in
      let flag = d || not (is_complete engine repository pieces t w1).0 in
      let w2 = (remove_from_engine engine repository pieces h flag w1).1 in
      let taken =
        with_result (remove_from_engine engine repository pieces h flag w1)
          (remove_from_engine_clean h flag w1 parsed n) in
      let same : table w2 ≡ table w =
        table-remove_from_engine env client data_dir up spares h flag w1 in
      let gone = delete-Deletes env h w2.store (up w2.store.calls, up (suc w2.store.calls)) in
      let managed : row_of h (table w2) ≡ some r = ap (row_of h) same ∙ there in
      let w3 = (repository.delete h w2).1 in
      let deleted = gone.0 ∙ ap answer managed in
      let done : remove engine repository pieces h d w ≡ (ok tt, pieces.forget h w3) =
        remove_steps h d w t w1 w2 found taken ∙ rw deleted refl in
      rw done (
        refl,
        λ j. gone.1 j ∙ ap (λ rows. if j == h then none else row_of j rows) same,
        λ i.
            ap (piece_of h i) (gone.2 ∙ rw managed refl)
            ∙ piece_of-keep h h i w2.store.completions
            ∙ rw eq_refl refl,
        λ pk. forgotten h pk w3,
      )

  -- With no database call failing and a client that spares the table `torrent` and leaves the disk
  -- alone when it drops a torrent: removing a torrent that is complete, without being asked to delete
  -- its files, changes nothing on disk, however the call ends.
  pub remove_keeps_complete :
      (h : String) (w : World C) {t : Torrent}
      → (repository.get h w).0 ≡ ok t
      → (is_complete engine repository pieces t (repository.get h w).1).0 ≡ true
      → DropSparesDisk client
      → (remove engine repository pieces h false w).1.disk ≡ w.disk
  unfolding remove remove_from_engine
  remove_keeps_complete h w {t} found complete d =
      let w1 = (repository.get h w).1 in
      ground (
        arith,
        found,
        complete,
        state-is_complete t w1,
        remove_keeps_files env client data_dir h w1 d,
      )
