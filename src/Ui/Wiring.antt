-- ===== src/Ui/Wiring.antt =====
-- The service behind the pages, as internal/server/server.go hands it to them.
use torrents.Database.Defs.{Env}
use torrents.Engine.Path.{FilePath}
use torrents.Engine.Defs.{World, Client}
use torrents.Service.Defs as Service
use torrents.Service.Wiring.{torrent_repository, torrent_engine, piece_repository}
use torrents.Ui.Defs.{TorrentService}

abbrev pub torrent_pages :
    {C T M : Type 0} → Env → Client (World C) T M → FilePath → TorrentService (World C)
torrent_pages {C = C} env client data_dir =
    let engine = torrent_engine env client data_dir in
    let repository = torrent_repository {C = C} env in
    let pieces = piece_repository {C = C} env in
    record {
      add_magnet = Service.add_magnet engine repository pieces;
      add_file = Service.add_file engine repository pieces;
      get = Service.get engine repository pieces;
      files = Service.files engine repository pieces;
      list = Service.list engine repository pieces;
      remove = Service.remove engine repository pieces;
      pause = Service.pause engine repository pieces;
      resume = Service.resume engine repository pieces;
    }
