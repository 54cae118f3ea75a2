-- ===== src/Service/Defs.antt =====
-- internal/server/service/torrent.go: the interfaces, the types and the methods of
-- `TorrentService`. What a call logs is not modelled.
use Prim.Native.String.{◌++◌ as append}
use torrents.Prelude.{
  ℕ, String, Bool, true, false, not, ◌&&◌, ◌||◌, List, [], ◌∷◌, map, ◌==◌, leb, ltb, if◌then◌else◌,
}
use torrents.Go.Errors.{Error, Sentinel, sentinel, wrap, is}
use torrents.Go.Exec.{ok, err, Exec, or_else, pure, raise}
use torrents.Go.Time.{Time}
use torrents.Database.Defs.{Torrent as DbTorrent}
use torrents.Engine.Defs.{Progress, FileProgress}

abbrev pub err_torrent_not_found : Error
err_torrent_not_found = sentinel Sentinel.service_torrent_not_found

abbrev pub err_torrent_already_exists : Error
err_torrent_already_exists = sentinel Sentinel.service_torrent_already_exists

abbrev pub err_invalid_torrent_file : Error
err_invalid_torrent_file = sentinel Sentinel.service_invalid_torrent_file

pub record TorrentEngine (S : Type 0) : Type 0 where
  pub add_magnet : String → Exec S String
  pub add_file : String → Exec S String
  pub remove : String → Bool → Exec S (Unit {0})
  pub snapshot : String → Exec S Progress
  pub files : String → Exec S (List FileProgress)

pub record PieceRepository (S : Type 0) : Type 0 where
  pub forget : String → S → S

pub record TorrentRepository (S : Type 0) : Type 0 where
  pub create : DbTorrent → Exec S (Unit {0})
  pub get : String → Exec S DbTorrent
  pub list : Exec S (List DbTorrent)
  pub delete : String → Exec S (Unit {0})
  pub set_metadata : String → String → ℕ → Exec S (Unit {0})
  pub set_bytes_completed : String → ℕ → Exec S (Unit {0})
  pub set_paused : String → Bool → Exec S (Unit {0})

pub record Torrent : Type 0 where
  pub info_hash : String
  pub magnet : String
  pub label : String
  pub target_dir : String
  pub paused : Bool
  pub created_at : Time
  pub updated_at : Time
  pub name : String
  pub length : ℕ
  pub bytes_completed : ℕ
  pub active_peers : ℕ
  pub seeders : ℕ

pub record File : Type 0 where
  pub path : String
  pub length : ℕ
  pub bytes_completed : ℕ

pub record AddOptions : Type 0 where
  pub label : String
  pub target_dir : String

abbrev pub zero_time : Time
zero_time = record { seconds = 0; nanos = 0 }

abbrev pub new_file : FileProgress → File
new_file f = record { path = f.path; length = f.length; bytes_completed = f.bytes_completed }

-- The row as it stands, with no live state.
abbrev pub stored : DbTorrent → Torrent
stored row = record {
  info_hash = row.info_hash;
  magnet = row.magnet;
  label = row.label;
  target_dir = row.target_dir;
  paused = row.paused;
  created_at = row.created_at;
  updated_at = row.updated_at;
  name = row.name;
  length = row.length;
  bytes_completed = row.bytes_completed;
  active_peers = 0;
  seeders = 0;
}

-- The live state over the row.
abbrev pub overlay : DbTorrent → Progress → Torrent
overlay row progress = record (stored row) {
  name = if not (progress.name == "") then progress.name else row.name;
  length = if ltb 0 progress.length then progress.length else row.length;
  bytes_completed = progress.bytes_completed;
  active_peers = progress.active_peers;
  seeders = progress.seeders;
}

-- A method's test of a repository error: not-found is the service's own, any other is wrapped.
unfoldable pub load_error : String → Error → Error
load_error label e =
    if is e Sentinel.db_torrent_not_found then err_torrent_not_found else wrap label e

module _ {S : Type 0} (engine : TorrentEngine S) (torrents : TorrentRepository S)
    (pieces : PieceRepository S) where
  unfoldable pub persist_metadata : String → S → S
  persist_metadata hash s =
      let (r, s') = engine.snapshot hash s in
      elim r [
        | err e ↦ s'
        | ok progress ↦
            if progress.name == ""
            then s'
            else (torrents.set_metadata hash progress.name progress.length s').1
      ]

  unfoldable pub persist_bytes_completed : String → S → S
  persist_bytes_completed hash s =
      let (r, s') = engine.snapshot hash s in
      elim r [
        | err e ↦ s'
        | ok progress ↦ (torrents.set_bytes_completed hash progress.bytes_completed s').1
      ]

  unfoldable pub hydrate : DbTorrent → S → Torrent × S
  hydrate row s =
      let (r, s') = engine.snapshot row.info_hash s in
      elim r [ err e ↦ (stored row, s') | ok progress ↦ (overlay row progress, s') ]

  unfoldable pub get : String → Exec S Torrent
  unfolding load_error hydrate
  get info_hash =
      or_else (torrents.get info_hash) (λ e. raise (load_error "failed to load torrent" e))
        (λ row s. let (t, s') = hydrate row s in (ok t, s'))

  unfoldable pub persist : String → String → AddOptions → Exec S Torrent
  unfolding persist_metadata get
  persist hash magnet opts =
      or_else
        (torrents.create (record {
          info_hash = hash;
          magnet = magnet;
          label = opts.label;
          target_dir = opts.target_dir;
          paused = false;
          name = "";
          length = 0;
          bytes_completed = 0;
          created_at = zero_time;
          updated_at = zero_time;
        }))
        (λ e. raise (
          if is e Sentinel.db_torrent_already_exists
          then err_torrent_already_exists
          else wrap "failed to persist torrent" e))
        (λ _ s. get hash (persist_metadata hash s))

  unfoldable pub add_magnet : String → AddOptions → Exec S Torrent
  unfolding persist
  add_magnet uri opts =
      or_else (engine.add_magnet uri) (λ e. raise (wrap "failed to add magnet" e))
        (λ hash. persist hash uri opts)

  unfoldable pub add_file : String → AddOptions → Exec S Torrent
  unfolding persist
  add_file contents opts =
      or_else (engine.add_file contents)
        (λ e. raise (
          if is e Sentinel.engine_invalid_file
          then err_invalid_torrent_file
          else wrap "failed to add torrent file" e))
        (λ hash. persist hash (append "magnet:?xt=urn:btih:" hash) opts)

  unfoldable pub files : String → Exec S (List File)
  unfolding load_error
  files info_hash =
      or_else (torrents.get info_hash) (λ e. raise (load_error "failed to load torrent" e))
        (λ _. or_else (engine.files info_hash) (λ _. pure []) (λ fp. pure (map new_file fp)))

  unfoldable pub hydrate_all : List DbTorrent → Exec S (List Torrent)
  unfolding hydrate
  hydrate_all [] s = (ok [], s)
  hydrate_all (row ∷ rows) s =
      let (t, s') = hydrate row s in or_else (hydrate_all rows) raise (λ ts. pure (t ∷ ts)) s'

  unfoldable pub list : Exec S (List Torrent)
  unfolding hydrate_all
  list = or_else torrents.list (λ e. raise (wrap "failed to list torrents" e)) hydrate_all

  unfoldable pub is_complete : DbTorrent → S → Bool × S
  is_complete row s =
      let fallback = ltb 0 row.length && leb row.length row.bytes_completed in
      let (r, s') = engine.snapshot row.info_hash s in
      elim r [
        | err e ↦ (fallback, s')
        | ok progress ↦ (
          if ltb 0 progress.length then leb progress.length progress.bytes_completed else fallback,
          s',
        )
      ]

  -- `engine.Remove`, whose not-found error is passed over.
  unfoldable pub remove_from_engine : String → Bool → Exec S (Unit {0})
  remove_from_engine info_hash delete_files =
      or_else (engine.remove info_hash delete_files)
        (λ e.
          if is e Sentinel.engine_not_found
          then pure tt
          else raise (wrap "failed to remove torrent from engine" e))
        pure

  unfoldable pub remove : String → Bool → Exec S (Unit {0})
  unfolding load_error is_complete remove_from_engine
  remove info_hash delete_files =
      or_else (torrents.get info_hash) (λ e. raise (load_error "failed to load torrent" e))
        (λ row s.
          let (complete, s') = is_complete row s in
          or_else (remove_from_engine info_hash (delete_files || not complete)) raise
            (λ _.
              or_else (torrents.delete info_hash)
                (λ e. raise (load_error "failed to delete torrent" e))
                (λ _ s''. (ok tt, pieces.forget info_hash s'')))
            s')

  unfoldable pub pause : String → Exec S (Unit {0})
  unfolding load_error persist_bytes_completed remove_from_engine
  pause info_hash s =
      or_else (remove_from_engine info_hash false) raise
        (λ _.
          or_else (torrents.set_paused info_hash true)
            (λ e. raise (load_error "failed to persist torrent state" e)) pure)
        (persist_bytes_completed info_hash s)

  unfoldable pub resume : String → Exec S (Unit {0})
  unfolding load_error persist_metadata
  resume info_hash =
      or_else (torrents.get info_hash) (λ e. raise (load_error "failed to load torrent" e))
        (λ row.
          or_else (torrents.set_paused info_hash false)
            (λ e. raise (load_error "failed to persist torrent state" e))
            (λ _.
              or_else (engine.add_magnet row.magnet)
                (λ e s. (
                  err (wrap "failed to re-add torrent to engine" e),
                  (torrents.set_paused info_hash true s).1,
                ))
                (λ hash s. (ok tt, persist_metadata hash s))))
