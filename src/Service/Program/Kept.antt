-- ===== src/Service/Program/Kept.antt =====
-- What each call and each step of the torrent client keeps, the requests keep in any order.
use torrents.Prelude.{ℕ, zero, suc, List, [], ◌∷◌}
use torrents.Database.Torrents.Valid.{IsValid, IsClock}
use torrents.Database.Defs.{Env}
use torrents.Engine.Path.{FilePath}
use torrents.Engine.Defs.{World, Client}
use torrents.Service.Defs.{TorrentEngine, TorrentRepository, PieceRepository}
use torrents.Service.Wiring.{torrent_repository, torrent_engine, piece_repository}
use torrents.Service.Frame.{table, SparesTable}
use torrents.Service.Invariant.{IsKept}
use torrents.Service.Always.{Call, HasValidTable, table-IsKept}
use torrents.Service.Program.{
  Op, engine_add_magnet, engine_add_file, engine_snapshot, engine_files, engine_remove, row_create,
  row_get, row_delete, row_list, row_set_metadata, row_set_bytes_completed, row_set_paused,
  pieces_forget, Program, reply, ask, perform,
}
use torrents.Service.Program.Requests.{Reply}
use torrents.Service.Program.Pool.{
  Pool, Turn, request_turn, background, begin, proceed, proceed_nth, take_turns,
}

-- Each step of the torrent client's goroutines keeps the invariant.
abbrev pub BackgroundKeeps : {S : Type 0} → (S → Type 0) → List (Turn S) → Type 0
BackgroundKeeps P [] = Unit
BackgroundKeeps P (request_turn n ∷ ts) = BackgroundKeeps P ts
BackgroundKeeps {S = S} P (background f ∷ ts) = ((s : S) → P s → P (f s)) × BackgroundKeeps P ts

module _ {S : Type 0} (engine : TorrentEngine S) (torrents : TorrentRepository S)
    (pieces : PieceRepository S) (P : S → Type 0) (kept : IsKept engine torrents pieces P) where
  perform_keeps : (op : Op) (s : S) → P s → P (perform engine torrents pieces op s).1
  perform_keeps (engine_add_magnet uri) = kept.add_magnet uri
  perform_keeps (engine_add_file file) = kept.add_file file
  perform_keeps (engine_snapshot h) = kept.snapshot h
  perform_keeps (engine_files h) = kept.files h
  perform_keeps (engine_remove h d) = kept.remove h d
  perform_keeps (row_create t) = kept.create t
  perform_keeps (row_get h) = kept.get h
  perform_keeps (row_delete h) = kept.delete h
  perform_keeps row_list = kept.list
  perform_keeps (row_set_metadata h name length) = kept.set_metadata h name length
  perform_keeps (row_set_bytes_completed h n) = kept.set_bytes_completed h n
  perform_keeps (row_set_paused h paused) = kept.set_paused h paused
  perform_keeps (pieces_forget h) = kept.forget h

  proceed_keeps : (p : Program Reply) (s : S) → P s → P (proceed engine torrents pieces p s).1
  proceed_keeps (reply r) s v = v
  proceed_keeps (ask op k) s v = perform_keeps op s v

  proceed_nth_keeps :
      (n : ℕ) (ps : Pool) (s : S) → P s → P (proceed_nth engine torrents pieces n ps s).1
  proceed_nth_keeps n [] s v = v
  proceed_nth_keeps zero (p ∷ ps) s v = proceed_keeps p s v
  proceed_nth_keeps (suc n) (p ∷ ps) s v = proceed_nth_keeps n ps s v

  pub take_turns_keeps :
      (ts : List (Turn S)) (ps : Pool) (s : S)
      → BackgroundKeeps P ts
      → P s
      → P (take_turns engine torrents pieces ts (ps, s)).1
  take_turns_keeps [] ps s b v = v
  take_turns_keeps (request_turn n ∷ ts) ps s b v =
      let (ps', s') = proceed_nth engine torrents pieces n ps s in
      take_turns_keeps ts ps' s' b (proceed_nth_keeps n ps s v)
  take_turns_keeps (background f ∷ ts) ps s (h, b) v = take_turns_keeps ts ps (f s) b (h s v)

module _ {C T M : Type 0} (env : Env) (client : Client (World C) T M) (data_dir : FilePath)
    (clock : IsClock env) (spares : SparesTable client) where
  abbrev engine : TorrentEngine (World C)
  engine = torrent_engine env client data_dir

  abbrev repository : TorrentRepository (World C)
  repository = torrent_repository env

  abbrev pieces : PieceRepository (World C)
  pieces = piece_repository env

  -- Where the clock keeps nanoseconds below a second, and the client spares the table `torrent` in
  -- its calls and in the steps of its goroutines: whatever requests are under way together, in
  -- whatever order their calls and those steps come, and whatever fails, the table stays valid: no
  -- info hash occurs twice, also where two requests add one torrent, and the times of every row
  -- parse.
  pub take_turns-IsValid :
      (calls : List Call) (turns : List (Turn (World C))) (w : World C)
      → BackgroundKeeps {S = World C} (λ v. IsValid (table v)) turns
      → IsValid (table w)
      → IsValid (table (take_turns engine repository pieces turns (begin calls, w)).1)
  take_turns-IsValid calls turns w b v =
      take_turns_keeps engine repository pieces (HasValidTable env client data_dir clock spares)
        (table-IsKept env client data_dir clock spares) turns (begin calls) w b v
