-- ===== src/Service/Wiring.antt =====
-- The interfaces of the service, filled as internal/server/server.go fills them.
use torrents.Go.Exec.{Exec}
use torrents.Database.Defs.{Store, Env}
use torrents.Database.Torrents as Rows
use torrents.Database.Pieces as Pieces
use torrents.Engine.Path.{FilePath}
use torrents.Engine.Defs as Engine
use torrents.Engine.Defs.{World, Client}
use torrents.Service.Defs.{TorrentEngine, TorrentRepository, PieceRepository}

-- A method of a repository, in the state of the server.
abbrev pub on_store : {A C : Type 0} → Exec Store A → Exec (World C) A
on_store m w = let (r, s) = m w.store in (r, record w { store = s })

abbrev pub torrent_repository : {C : Type 0} → Env → TorrentRepository (World C)
torrent_repository env = record {
  create = λ t. on_store (Rows.create env t);
  get = λ h. on_store (Rows.get env h);
  list = on_store (Rows.list env);
  delete = λ h. on_store (Rows.delete env h);
  set_metadata = λ h name length. on_store (Rows.set_metadata env h name length);
  set_bytes_completed = λ h n. on_store (Rows.set_bytes_completed env h n);
  set_paused = λ h paused. on_store (Rows.set_paused env h paused);
}

abbrev pub piece_repository : {C : Type 0} → Env → PieceRepository (World C)
piece_repository env = record { forget = λ h w. record w { store = Pieces.forget env h w.store } }

abbrev pub torrent_engine :
    {C T M : Type 0} → Env → Client (World C) T M → FilePath → TorrentEngine (World C)
torrent_engine env client data_dir = record {
  add_magnet = Engine.add_magnet env client data_dir;
  add_file = Engine.add_file env client data_dir;
  remove = Engine.remove env client data_dir;
  snapshot = Engine.snapshot env client data_dir;
  files = Engine.files env client data_dir;
}
