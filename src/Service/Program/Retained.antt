-- ===== src/Service/Program/Retained.antt =====
-- A torrent stays managed until a request removes it.
use torrents.Prelude.{ℕ, zero, suc, String, false, ◌≡◌, refl, ap, ◌∙◌, some, List, [], ◌∷◌, All}
use torrents.Database.Defs.{Env}
use torrents.Database.Torrents.Valid.{
  create_stmt, delete_stmt, set_metadata_stmt, set_bytes_completed_stmt, set_paused_stmt,
}
use torrents.Database.Torrents.Identity.{Identity, identity_of, run-identity_of}
use torrents.Database.Pieces as Pieces
use torrents.Engine.Path.{FilePath}
use torrents.Engine.Defs.{World, Client}
use torrents.Service.Defs.{TorrentEngine, TorrentRepository, PieceRepository}
use torrents.Service.Wiring.{torrent_repository, torrent_engine, piece_repository}
use torrents.Service.Frame.{
  table, SparesTable, table-add_magnet, table-add_file, table-remove, state-snapshot, state-files,
}
use torrents.Service.Always.{Call, torrents-get, torrents-list}
use torrents.Service.Program.{
  Op, engine_add_magnet, engine_add_file, engine_snapshot, engine_files, engine_remove, row_create,
  row_get, row_delete, row_list, row_set_metadata, row_set_bytes_completed, row_set_paused,
  pieces_forget, Program, reply, ask, perform,
}
use torrents.Service.Program.Requests.{Reply}
use torrents.Service.Program.Pool.{
  Pool, Turn, request_turn, background, begin, proceed, proceed_nth, take_turns,
}
use torrents.Service.Program.Kept.{BackgroundKeeps}
use torrents.Service.Program.Undeleted.{deletes, Spares, removes, request-Spares}

begin-Spares :
    (h : String) (calls : List Call)
    → All (λ c. removes h c ≡ false) calls
    → All (Spares h) (begin calls)
begin-Spares h [] a = tt
begin-Spares h (c ∷ calls) (e, a) = (request-Spares h c e, begin-Spares h calls a)

module _ {C T M : Type 0} (env : Env) (client : Client (World C) T M) (data_dir : FilePath)
    (spares : SparesTable client) where
  abbrev engine : TorrentEngine (World C)
  engine = torrent_engine env client data_dir

  abbrev repository : TorrentRepository (World C)
  repository = torrent_repository env

  abbrev pieces : PieceRepository (World C)
  pieces = piece_repository env

  module _ (h : String) (v : Identity) where
    abbrev pub IsManagedAs : World C → Type 0
    IsManagedAs w = identity_of h (table w) ≡ some v

    moved : (w w' : World C) → table w' ≡ table w → IsManagedAs w → IsManagedAs w'
    moved w w' e m = ap (identity_of h) e ∙ m

    perform_keeps :
        (op : Op) (w : World C)
        → deletes h op ≡ false
        → IsManagedAs w
        → IsManagedAs (perform engine repository pieces op w).1
    unfolding Pieces.forget
    perform_keeps (engine_add_magnet uri) w ne m =
        moved w (engine.add_magnet uri w).1 (table-add_magnet env client data_dir uri w spares) m
    perform_keeps (engine_add_file file) w ne m =
        moved w (engine.add_file file w).1 (table-add_file env client data_dir file w spares) m
    perform_keeps (engine_snapshot j) w ne m =
        moved w (engine.snapshot j w).1 (ap table (state-snapshot env client data_dir j w)) m
    perform_keeps (engine_files j) w ne m =
        moved w (engine.files j w).1 (ap table (state-files env client data_dir j w)) m
    perform_keeps (engine_remove j d) w ne m =
        moved w (engine.remove j d w).1 (table-remove env client data_dir j d w spares) m
    perform_keeps (row_create t) w ne m = run-identity_of env h w.store m (create_stmt t) refl
    perform_keeps (row_get j) w ne m = moved w (repository.get j w).1 (torrents-get env j w.store) m
    perform_keeps (row_delete j) w ne m = run-identity_of env h w.store m (delete_stmt j) ne
    perform_keeps row_list w ne m = moved w (repository.list w).1 (torrents-list env w.store) m
    perform_keeps (row_set_metadata j name n) w ne m =
        run-identity_of env h w.store m (set_metadata_stmt j name n) refl
    perform_keeps (row_set_bytes_completed j n) w ne m =
        run-identity_of env h w.store m (set_bytes_completed_stmt j n) refl
    perform_keeps (row_set_paused j b) w ne m =
        run-identity_of env h w.store m (set_paused_stmt j b) refl
    perform_keeps (pieces_forget j) w ne m = m

    -- One call of one request: what is left of it spares the row as well.
    abbrev Both : Program Reply × World C → Type 0
    Both (p, w) = Spares h p × IsManagedAs w

    abbrev AllBoth : Pool × World C → Type 0
    AllBoth (ps, w) = All (Spares h) ps × IsManagedAs w

    proceed_keeps :
        (p : Program Reply) (w : World C)
        → Both (p, w)
        → Both (proceed engine repository pieces p w)
    proceed_keeps (reply r) w b = b
    proceed_keeps (ask op k) w ((ne, s), m) =
        (s (perform engine repository pieces op w).0, perform_keeps op w ne m)

    proceed_nth_keeps :
        (n : ℕ) (ps : Pool) (w : World C)
        → AllBoth (ps, w)
        → AllBoth (proceed_nth engine repository pieces n ps w)
    proceed_nth_keeps n [] w b = b
    proceed_nth_keeps zero (p ∷ ps) w ((s, ss), m) =
        let (s', m') = proceed_keeps p w (s, m) in ((s', ss), m')
    proceed_nth_keeps (suc n) (p ∷ ps) w ((s, ss), m) =
        let (ss', m') = proceed_nth_keeps n ps w (ss, m) in ((s, ss'), m')

    take_turns_keep :
        (turns : List (Turn (World C))) (ps : Pool) (w : World C)
        → BackgroundKeeps IsManagedAs turns
        → AllBoth (ps, w)
        → AllBoth (take_turns engine repository pieces turns (ps, w))
    take_turns_keep [] ps w quiet b = b
    take_turns_keep (request_turn n ∷ ts) ps w quiet b =
        let (ps', w') = proceed_nth engine repository pieces n ps w in
        take_turns_keep ts ps' w' quiet (proceed_nth_keeps n ps w b)
    take_turns_keep (background f ∷ ts) ps w (q, quiet) (ss, m) =
        take_turns_keep ts ps (f w) quiet (ss, q w m)

    -- Where the client spares the table `torrent` in its calls and in the steps of its goroutines: a
    -- managed torrent stays managed, with its magnet, label, directory and time of creation, through
    -- all calls of all requests that are under way together, in any order and whatever fails, unless
    -- one of the requests is to remove it.
    pub take_turns-Retains :
        (calls : List Call) (turns : List (Turn (World C))) (w : World C)
        → All (λ c. removes h c ≡ false) calls
        → BackgroundKeeps IsManagedAs turns
        → IsManagedAs w
        → IsManagedAs (take_turns engine repository pieces turns (begin calls, w)).1
    take_turns-Retains calls turns w none_removes quiet m =
        (take_turns_keep turns (begin calls) w quiet (begin-Spares h calls none_removes, m)).1
