-- ===== src/Engine/Defs.antt =====
-- internal/server/torrent/engine.go and the interfaces of client.go.
use Prim.Native.String.{◌++◌ as append}
use torrents.Prelude.{
  ℕ, String, Bool, not, ◌&&◌, Option, none, some, List, [], ◌∷◌, map, ◌==◌, if◌then◌else◌,
}
use torrents.Go.Errors.{Error, Sentinel, sentinel, wrap, wrap_quoted, annotate}
use torrents.Go.Exec.{Result, ok, err, Exec, or_else, raise}
use torrents.Database.Defs.{Hash, Store, Env}
use torrents.Engine.Path.{FilePath, join, remove_all, remove_some}

abbrev pub err_not_found : Error
err_not_found = sentinel Sentinel.engine_not_found

abbrev pub err_invalid_file : Error
err_invalid_file = sentinel Sentinel.engine_invalid_file

pub record FileProgress : Type 0 where
  pub path : String
  pub length : ℕ
  pub bytes_completed : ℕ

-- `*anacrolix.File`, as its three methods show it.
pub record ClientFile : Type 0 where
  pub display_path : String
  pub length : ℕ
  pub bytes_completed : ℕ

pub record Progress : Type 0 where
  pub info_hash : String
  pub name : String
  pub length : ℕ
  pub bytes_completed : ℕ
  pub active_peers : ℕ
  pub seeders : ℕ

-- The server: the database package's state, the torrent client's own state and the paths on disk.
pub record World (C : Type 0) : Type 0 where
  pub store : Store
  pub client : C
  pub disk : List FilePath

-- The interfaces `Client` and `Torrent`, with `metainfo.Load`. `T` is a torrent in the client,
-- `M` a parsed metainfo file. A wait that the context ends gives `ctx.Err()`. The last field is the
-- file system's: the error of `os.RemoveAll`, if it fails, with the paths that it had reached.
pub record Client (S T M : Type 0) : Type 0 where
  pub load_metainfo : String → Result M
  pub add_magnet : String → Exec S T
  pub add_torrent : M → Exec S T
  pub torrent : Hash → S → Option T
  pub got_info : T → Exec S (Unit {0})
  pub verify_data : T → Exec S (Unit {0})
  pub download_all : T → S → S
  pub drop : T → S → S
  pub info_hash : T → Hash
  pub name : T → S → String
  pub length : T → S → ℕ
  pub bytes_completed : T → S → ℕ
  pub active_peers : T → S → ℕ
  pub connected_seeders : T → S → ℕ
  pub files : T → S → Option (List ClientFile)
  pub remove_fault : FilePath → S → Option (Error × (FilePath → Bool))

abbrev pub file_progress : ClientFile → FileProgress
file_progress f = record {
  path = f.display_path;
  length = f.length;
  bytes_completed = f.bytes_completed;
}

module _ {C T M : Type 0} (env : Env) (client : Client (World C) T M) (data_dir : FilePath) where
  -- The part that AddMagnet and AddFile share word for word: wait for the metainfo, verify what is
  -- on disk, start the download.
  unfoldable pub start : T → Exec (World C) String
  start t =
      or_else (client.got_info t) (λ e w. (err e, client.drop t w))
        (λ _.
          or_else (client.verify_data t)
            (λ e w. (err (wrap "failed to verify torrent data" e), client.drop t w))
            (λ _ w. (ok (env.hex_string (client.info_hash t)), client.download_all t w)))

  unfoldable pub add_magnet : String → Exec (World C) String
  add_magnet uri =
      or_else (client.add_magnet uri) (λ e. raise (wrap "failed to add magnet" e)) start

  unfoldable pub add_file : String → Exec (World C) String
  add_file contents w = elim (client.load_metainfo contents) [
    | err e ↦ (err (annotate err_invalid_file e), w)
    | ok mi ↦ or_else (client.add_torrent mi) (λ e. raise (wrap "failed to add torrent" e)) start w
  ]

  unfoldable pub find : String → World C → Result (Option T)
  find hash w = elim (env.from_hex_string hash) [
    | err e ↦ err (wrap_quoted "invalid info hash" hash e)
    | ok h ↦ ok (client.torrent h w)
  ]

  -- `find`, and the two early returns that every caller makes.
  unfoldable pub with_torrent : {A : Type 0} → String → (T → Exec (World C) A) → Exec (World C) A
  with_torrent hash k w = elim (find hash w) [
    | err e ↦ (err e, w)
    | ok found ↦ elim found [ none ↦ (err err_not_found, w) | some t ↦ k t w ]
  ]

  -- One turn of the loop over the two paths, after the ones before it.
  unfoldable pub remove_paths : List FilePath → Exec (World C) (Unit {0})
  remove_paths [] w = (ok tt, w)
  remove_paths (path ∷ paths) w = elim (client.remove_fault path w) [
    | some (e, reached) ↦ (
      err (wrap "failed to remove torrent data" e),
      record w { disk = remove_some reached path w.disk },
    )
    | none ↦ remove_paths paths (record w { disk = remove_all path w.disk })
  ]

  -- What follows the lookup in `Remove`, `Snapshot` and `Files`.
  unfoldable pub remove_torrent : Bool → T → Exec (World C) (Unit {0})
  remove_torrent delete_files t w =
      let name = client.name t w in
      let w' = client.drop t w in
      if delete_files && not (name == "")
      then remove_paths (join data_dir name ∷ join data_dir (append name ".part") ∷ []) w'
      else (ok tt, w')

  abbrev pub progress_of : String → T → World C → Progress
  progress_of hash t w = record {
    info_hash = hash;
    name = client.name t w;
    length = client.length t w;
    bytes_completed = client.bytes_completed t w;
    active_peers = client.active_peers t w;
    seeders = client.connected_seeders t w;
  }

  unfoldable pub files_of : T → Exec (World C) (List FileProgress)
  files_of t w = elim (client.files t w) [
    | none ↦ (err err_not_found, w)
    | some fs ↦ (ok (map file_progress fs), w)
  ]

  unfoldable pub remove : String → Bool → Exec (World C) (Unit {0})
  remove hash delete_files = with_torrent hash (remove_torrent delete_files)

  unfoldable pub snapshot : String → Exec (World C) Progress
  snapshot hash = with_torrent hash (λ t w. (ok (progress_of hash t w), w))

  unfoldable pub files : String → Exec (World C) (List FileProgress)
  files hash = with_torrent hash files_of
