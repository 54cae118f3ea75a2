-- ===== src/Service/Program/Methods.antt =====
-- The methods, call by call.
use Prim.Native.String.{◌++◌ as append}
use torrents.Prelude.{
  String, Bool, true, false, not, ◌||◌, ◌&&◌, List, [], ◌∷◌, map, ◌==◌, ltb, leb, if◌then◌else◌,
}
use torrents.Go.Errors.{Error, Sentinel, is, wrap}
use torrents.Go.Exec.{ok, err}
use torrents.Database.Defs.{Torrent as DbTorrent}
use torrents.Service.Defs.{
  Torrent, File, AddOptions, stored, overlay, load_error, new_file, zero_time,
  err_torrent_already_exists, err_invalid_torrent_file,
}
use torrents.Service.Program.{
  engine_add_magnet, engine_add_file, engine_snapshot, engine_files, engine_remove, row_create,
  row_get, row_delete, row_list, row_set_metadata, row_set_bytes_completed, row_set_paused,
  pieces_forget, Program, reply, ask, attempt,
}

unfoldable pub persist_metadata : String → Program (Unit {0})
persist_metadata hash = ask (engine_snapshot hash) (λ r. elim r [
  | err e ↦ reply (ok tt)
  | ok progress ↦
      if progress.name == ""
      then reply (ok tt)
      else ask (row_set_metadata hash progress.name progress.length) (λ _. reply (ok tt))
])

unfoldable pub persist_bytes_completed : String → Program (Unit {0})
persist_bytes_completed hash = ask (engine_snapshot hash) (λ r. elim r [
  | err e ↦ reply (ok tt)
  | ok progress ↦ ask (row_set_bytes_completed hash progress.bytes_completed) (λ _. reply (ok tt))
])

unfoldable pub hydrate : DbTorrent → Program Torrent
hydrate row = ask (engine_snapshot row.info_hash) (λ r. elim r [
  | err e ↦ reply (ok (stored row))
  | ok progress ↦ reply (ok (overlay row progress))
])

-- The test of an error that a repository or the engine returned.
abbrev pub failing : {A : Type 0} → Error → Program A
failing e = reply (err e)

unfoldable pub get : String → Program Torrent
get hash =
    attempt (ask (row_get hash) reply) (λ e. failing (load_error "failed to load torrent" e))
      hydrate

unfoldable pub persist : String → String → AddOptions → Program Torrent
persist hash magnet opts =
    attempt
      (ask
        (row_create (record {
          info_hash = hash;
          magnet = magnet;
          label = opts.label;
          target_dir = opts.target_dir;
          paused = false;
          name = "";
          length = 0;
          bytes_completed = 0;
          created_at = zero_time;
          updated_at = zero_time;
        }))
        reply)
      (λ e. failing (
        if is e Sentinel.db_torrent_already_exists
        then err_torrent_already_exists
        else wrap "failed to persist torrent" e))
      (λ _. attempt (persist_metadata hash) failing (λ _. get hash))

unfoldable pub add_magnet : String → AddOptions → Program Torrent
add_magnet uri opts =
    attempt (ask (engine_add_magnet uri) reply) (λ e. failing (wrap "failed to add magnet" e))
      (λ hash. persist hash uri opts)

unfoldable pub add_file : String → AddOptions → Program Torrent
add_file contents opts =
    attempt (ask (engine_add_file contents) reply)
      (λ e. failing (
        if is e Sentinel.engine_invalid_file
        then err_invalid_torrent_file
        else wrap "failed to add torrent file" e))
      (λ hash. persist hash (append "magnet:?xt=urn:btih:" hash) opts)

unfoldable pub files : String → Program (List File)
files hash =
    attempt (ask (row_get hash) reply) (λ e. failing (load_error "failed to load torrent" e))
      (λ _.
        attempt (ask (engine_files hash) reply) (λ _. reply (ok []))
          (λ fp. reply (ok (map new_file fp))))

unfoldable pub hydrate_all : List DbTorrent → Program (List Torrent)
hydrate_all [] = reply (ok [])
hydrate_all (row ∷ rows) =
    attempt (hydrate row) failing
      (λ t. attempt (hydrate_all rows) failing (λ ts. reply (ok (t ∷ ts))))

unfoldable pub list : Program (List Torrent)
list = attempt (ask row_list reply) (λ e. failing (wrap "failed to list torrents" e)) hydrate_all

unfoldable pub is_complete : DbTorrent → Program Bool
is_complete row =
    let fallback = ltb 0 row.length && leb row.length row.bytes_completed in
    ask (engine_snapshot row.info_hash) (λ r. elim r [
      | err e ↦ reply (ok fallback)
      | ok progress ↦ reply (
          ok (
            if ltb 0 progress.length
            then leb progress.length progress.bytes_completed
            else fallback))
    ])

unfoldable pub remove_from_engine : String → Bool → Program (Unit {0})
remove_from_engine hash delete_files =
    attempt (ask (engine_remove hash delete_files) reply)
      (λ e.
        if is e Sentinel.engine_not_found
        then reply (ok tt)
        else failing (wrap "failed to remove torrent from engine" e))
      (λ _. reply (ok tt))

unfoldable pub remove : String → Bool → Program (Unit {0})
remove hash delete_files =
    attempt (ask (row_get hash) reply) (λ e. failing (load_error "failed to load torrent" e))
      (λ row. attempt (is_complete row) failing (λ complete.
        attempt (remove_from_engine hash (delete_files || not complete)) failing (λ _.
          attempt (ask (row_delete hash) reply)
            (λ e. failing (load_error "failed to delete torrent" e))
            (λ _. ask (pieces_forget hash) (λ _. reply (ok tt))))))

unfoldable pub pause : String → Program (Unit {0})
pause hash = attempt (persist_bytes_completed hash) failing (λ _.
    attempt (remove_from_engine hash false) failing (λ _.
      attempt (ask (row_set_paused hash true) reply)
        (λ e. failing (load_error "failed to persist torrent state" e)) (λ _. reply (ok tt))))

unfoldable pub resume : String → Program (Unit {0})
resume hash =
    attempt (ask (row_get hash) reply) (λ e. failing (load_error "failed to load torrent" e))
      (λ row.
        attempt (ask (row_set_paused hash false) reply)
          (λ e. failing (load_error "failed to persist torrent state" e))
          (λ _.
            attempt (ask (engine_add_magnet row.magnet) reply)
              (λ e.
                ask (row_set_paused hash true)
                  (λ _. failing (wrap "failed to re-add torrent to engine" e)))
              (λ h. persist_metadata h)))
