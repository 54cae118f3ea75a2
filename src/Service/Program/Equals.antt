-- ===== src/Service/Program/Equals.antt =====
-- Each method, call by call, is the method of Service/Defs.
use torrents.Prelude.{String, Bool, true, false, not, ◌||◌, refl, List, [], ◌∷◌}
use torrents.Go.Errors.{Error, Sentinel, is}
use torrents.Go.Exec.{ok, Exec, or_else, pure, raise}
use torrents.Database.Defs.{Torrent as DbTorrent}
use torrents.Service.Defs as Service
use torrents.Service.Defs.{TorrentEngine, TorrentRepository, PieceRepository, AddOptions}
use torrents.Service.Program.{
  row_get, row_list, row_delete, row_set_paused, engine_add_magnet, engine_add_file, engine_remove,
  engine_files, Program, reply, ask, attempt,
}
use torrents.Service.Program.Methods as Methods
use torrents.Service.Program.Methods.{failing}
use torrents.Service.Program.Agreement.{
  Agrees, attempt-Agrees, if-Agrees, metadata-Agrees, bytes-Agrees, hydrate-Agrees, complete-Agrees,
  persist-Agrees,
}

module _ {S : Type 0} (engine : TorrentEngine S) (torrents : TorrentRepository S)
    (pieces : PieceRepository S) where
  abbrev attempted :
      {A B : Type 0} (p : Program A) (m : Exec S A) (f : Error → Program B) (g : Error → Exec S B)
      (k : A → Program B) (l : A → Exec S B)
      → Agrees engine torrents pieces p m
      → ((e : Error) → Agrees engine torrents pieces (f e) (g e))
      → ((a : A) → Agrees engine torrents pieces (k a) (l a))
      → Agrees engine torrents pieces (attempt p f k) (or_else m g l)
  attempted = attempt-Agrees engine torrents pieces

  pub add_magnet-Agrees :
      (uri : String) (opts : AddOptions)
      → Agrees engine torrents pieces
          (Methods.add_magnet uri opts)
          (Service.add_magnet engine torrents pieces uri opts)
  unfolding Methods.add_magnet Service.add_magnet
  add_magnet-Agrees uri opts =
      attempted (ask (engine_add_magnet uri) reply) (engine.add_magnet uri) _ _ _ _ (λ s. refl)
        (λ e s. refl) (λ h. persist-Agrees engine torrents pieces h uri opts)

  pub add_file-Agrees :
      (file : String) (opts : AddOptions)
      → Agrees engine torrents pieces
          (Methods.add_file file opts)
          (Service.add_file engine torrents pieces file opts)
  unfolding Methods.add_file Service.add_file
  add_file-Agrees file opts =
      attempted (ask (engine_add_file file) reply) (engine.add_file file) _ _ _ _ (λ s. refl)
        (λ e s. refl) (λ h. persist-Agrees engine torrents pieces h _ opts)

  pub files-Agrees :
      (h : String)
      → Agrees engine torrents pieces (Methods.files h) (Service.files engine torrents pieces h)
  unfolding Methods.files Service.files
  files-Agrees h =
      attempted (ask (row_get h) reply) (torrents.get h) _ _ _ _ (λ s. refl) (λ e s. refl)
        (λ _.
          attempted (ask (engine_files h) reply) (engine.files h) _ _ _ _ (λ s. refl) (λ e s. refl)
            (λ fp s. refl))

  hydrate_all-Agrees :
      (rows : List DbTorrent)
      → Agrees engine torrents pieces
          (Methods.hydrate_all rows)
          (Service.hydrate_all engine torrents pieces rows)
  unfolding Methods.hydrate_all Service.hydrate_all
  hydrate_all-Agrees [] s = refl
  hydrate_all-Agrees (row ∷ rows) s =
      attempted (Methods.hydrate row)
        (λ s. let (t, s') = Service.hydrate engine torrents pieces row s in (ok t, s')) failing
        raise _
        (λ t. or_else (Service.hydrate_all engine torrents pieces rows) raise (λ ts. pure (t ∷ ts)))
        (hydrate-Agrees engine torrents pieces row) (λ e s. refl)
        (λ t.
          attempted (Methods.hydrate_all rows) (Service.hydrate_all engine torrents pieces rows)
            failing raise _ _ (hydrate_all-Agrees rows) (λ e s. refl) (λ ts s. refl))
        s

  pub list-Agrees : Agrees engine torrents pieces Methods.list (Service.list engine torrents pieces)
  unfolding Methods.list Service.list
  list-Agrees =
      attempted (ask row_list reply) torrents.list _ _ _ _ (λ s. refl) (λ e s. refl)
        hydrate_all-Agrees

  pub remove_from_engine-Agrees :
      (h : String) (d : Bool)
      → Agrees engine torrents pieces
          (Methods.remove_from_engine h d)
          (Service.remove_from_engine engine torrents pieces h d)
  unfolding Methods.remove_from_engine Service.remove_from_engine
  remove_from_engine-Agrees h d =
      attempted (ask (engine_remove h d) reply) (engine.remove h d) _ _ _ _ (λ s. refl)
        (λ e.
          if-Agrees engine torrents pieces (is e Sentinel.engine_not_found) _ _ _ _ (λ s. refl)
            (λ s. refl))
        (λ _ s. refl)

  pub remove-Agrees :
      (h : String) (d : Bool)
      → Agrees engine torrents pieces
          (Methods.remove h d)
          (Service.remove engine torrents pieces h d)
  unfolding Methods.remove Service.remove
  remove-Agrees h d =
      attempted (ask (row_get h) reply) (torrents.get h) _ _ _ _ (λ s. refl) (λ e s. refl)
        (λ row s.
          attempted (Methods.is_complete row)
            (λ s. let (b, s') = Service.is_complete engine torrents pieces row s in (ok b, s'))
            failing raise _
            (λ complete.
              or_else (Service.remove_from_engine engine torrents pieces h (d || not complete))
                raise
                (λ _.
                  or_else (torrents.delete h)
                    (λ e. raise (Service.load_error "failed to delete torrent" e))
                    (λ _ s''. (ok tt, pieces.forget h s''))))
            (complete-Agrees engine torrents pieces row) (λ e s. refl)
            (λ complete.
              attempted (Methods.remove_from_engine h (d || not complete))
                (Service.remove_from_engine engine torrents pieces h (d || not complete)) failing
                raise _ _ (remove_from_engine-Agrees h (d || not complete)) (λ e s. refl)
                (λ _.
                  attempted (ask (row_delete h) reply) (torrents.delete h) _ _ _ _ (λ s. refl)
                    (λ e s. refl) (λ _ s. refl)))
            s)

  pub pause-Agrees :
      (h : String)
      → Agrees engine torrents pieces (Methods.pause h) (Service.pause engine torrents pieces h)
  unfolding Methods.pause Service.pause
  pause-Agrees h =
      attempted (Methods.persist_bytes_completed h)
        (λ s. (ok tt, Service.persist_bytes_completed engine torrents pieces h s)) failing raise _
        (λ _. or_else (Service.remove_from_engine engine torrents pieces h false) raise (λ _.
          or_else (torrents.set_paused h true)
            (λ e. raise (Service.load_error "failed to persist torrent state" e)) pure))
        (bytes-Agrees engine torrents pieces h) (λ e s. refl)
        (λ _.
          attempted (Methods.remove_from_engine h false)
            (Service.remove_from_engine engine torrents pieces h false) failing raise _ _
            (remove_from_engine-Agrees h false) (λ e s. refl)
            (λ _.
              attempted (ask (row_set_paused h true) reply) (torrents.set_paused h true) _ _ _ pure
                (λ s. refl) (λ e s. refl) (λ _ s. refl)))

  pub resume-Agrees :
      (h : String)
      → Agrees engine torrents pieces (Methods.resume h) (Service.resume engine torrents pieces h)
  unfolding Methods.resume Service.resume
  resume-Agrees h =
      attempted (ask (row_get h) reply) (torrents.get h) _ _ _ _ (λ s. refl) (λ e s. refl)
        (λ row.
          attempted (ask (row_set_paused h false) reply) (torrents.set_paused h false) _ _ _ _
            (λ s. refl) (λ e s. refl)
            (λ _.
              attempted (ask (engine_add_magnet row.magnet) reply) (engine.add_magnet row.magnet) _
                _ _ _ (λ s. refl) (λ e s. refl)
                (λ hash. metadata-Agrees engine torrents pieces hash)))
