-- ===== src/Api/Deletion.antt =====
-- `DELETE /api/v1/torrent/{hash}` on the server, from the handler down to the tables.
use torrents.Prelude.{String, ◌≡◌, refl, ap, ◌∙◌, Option, none, some, ◌==◌, eq_refl, arith}
use torrents.Go.Errors.{Error}
use torrents.Go.Exec.{ok, err}
use torrents.Database.Defs.{Row, Env, Hash}
use torrents.Database.Torrents.Table.{row_of}
use torrents.Database.Torrents.Valid.{IsValid}
use torrents.Database.Torrents.Order.{IsAlwaysUp}
use torrents.Engine.Path.{FilePath}
use torrents.Engine.Defs.{World, Client}
use torrents.Service.Defs as Service
use torrents.Service.Wiring.{torrent_repository, torrent_engine, piece_repository}
use torrents.Service.Frame.{SparesTable, table}
use torrents.Service.Pausing.{get_missing_row}
use torrents.Service.Removing.{NoRemoveFault, remove_lem}
use torrents.Api.Defs.{TorrentService, Request, get, remove}
use torrents.Api.Status.{status_lem, status_of}

-- The service behind the handlers, as internal/server/server.go hands it to them.
abbrev pub torrent_service :
    {C T M : Type 0} → Env → Client (World C) T M → FilePath → TorrentService (World C)
torrent_service {C} env client data_dir =
    let engine = torrent_engine env client data_dir in
    let repository = torrent_repository {C = C} env in
    let pieces = piece_repository {C = C} env in
    record {
      add_magnet = Service.add_magnet engine repository pieces;
      add_file = Service.add_file engine repository pieces;
      get = Service.get engine repository pieces;
      list = Service.list engine repository pieces;
      remove = Service.remove engine repository pieces;
      pause = Service.pause engine repository pieces;
      resume = Service.resume engine repository pieces;
    }

module _ {C T M : Type 0} (env : Env) (client : Client (World C) T M) (data_dir : FilePath)
    (required : String → Option Error) (up : IsAlwaysUp env) (spares : SparesTable client) where
  abbrev service : TorrentService (World C)
  service = torrent_service env client data_dir

  get_missing :
      (h : String) (w : World C)
      → row_of h (table w) ≡ none
      → (service.get h w).0 ≡ err Service.err_torrent_not_found
  unfolding Service.get Service.load_error
  get_missing h w gone = ground (arith, get_missing_row env client data_dir up spares h w gone)

  remove_state :
      (r : Request) (w : World C)
      → (remove service required r w).1 ≡ (service.remove r.hash (r.files == "true") w).1
  unfolding remove
  remove_state r w = ground arith

  -- With no database call and no `os.RemoveAll` failing, a client that spares the table `torrent`
  -- and a valid table: deleting a managed torrent whose hash parses answers 200, and asking for the
  -- torrent after that answers 404.
  pub remove_then_get :
      (r : Request) (w : World C) {row : Row} {k : Hash}
      → row_of r.hash (table w) ≡ some row
      → env.from_hex_string r.hash ≡ ok k
      → IsValid (table w)
      → NoRemoveFault client
      → let (first, w') = remove service required r w in
        (first.status ≡ 200) × ((get service required r w').0.status ≡ 404)
  remove_then_get r w there parsed v n =
      let (done, rows, _, _) =
        remove_lem env client data_dir up spares r.hash (r.files == "true") w there parsed v n in
      let w' = (remove service required r w).1 in
      let gone : row_of r.hash (table w') ≡ none =
        ap (λ s. row_of r.hash (table s)) (remove_state r w) ∙ rows r.hash ∙ rw eq_refl refl in
      (
        (status_lem service required r w).1 ∙ ap status_of done,
        (status_lem service required r w').0 ∙ ap status_of (get_missing r.hash w' gone),
      )
