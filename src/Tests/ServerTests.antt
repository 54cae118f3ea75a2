-- ===== src/Tests/ServerTests.antt =====
-- The theorems on the service and the handlers, on the whole toy server.
use mathlib.Core.Option
use torrents.Prelude.{
  arith, ℕ, String, true, false, ◌≡◌, refl, Option, none, some, ◌==◌, if◌then◌else◌,
}
use torrents.Go.Errors.{Error, plain}
use torrents.Go.Exec.{ok, err}
use torrents.Database.Defs.{PieceKey, Hash, call}
use torrents.Database.Pieces.{map_get}
use torrents.Database.Pieces.Coherent.{piece_of}
use torrents.Database.Torrents.Table.{row_of}
use torrents.Database.Defs as Rows
use torrents.Database.Torrents as Database
use torrents.Database.Torrents.Valid.{parse_time-format_time}
use torrents.Engine.Defs as Engine
use torrents.Service.Defs as Service
use torrents.Service.Wiring.{torrent_repository, torrent_engine, piece_repository}
use torrents.Service.Frame.{SparesTable, table, paused_of}
use torrents.Service.Resuming.{Resumes, resume-Resumes}
use torrents.Service.Pausing.{failed, pause_lem}
use torrents.Service.Removing.{remove_lem, remove_keeps_complete}
use torrents.Api.Defs.{Request}
use torrents.Tests.Fixtures.{
  noon, unary, toy_env, toy_env-IsAlwaysUp, toy_client, toy_client-SparesTable, toy_world,
  toy_store-IsValid, data_dir, Tracked,
}

abbrev engine : Service.TorrentEngine (Engine.World Tracked)
engine = torrent_engine toy_env (toy_client "film") data_dir

abbrev repository : Service.TorrentRepository (Engine.World Tracked)
repository = torrent_repository toy_env

abbrev pieces : Service.PieceRepository (Engine.World Tracked)
pieces = piece_repository toy_env

abbrev required : String → Option Error
required s = if s == "" then some (plain "magnet: cannot be blank") else none

abbrev request : Request
request = record {
  media_type = "application/json";
  json = ok (record { magnet = "aaaa"; label = ""; target_dir = "" });
  form = err (plain "no form");
  hash = "a";
  files = "true";
}

-- The torrent "a" is tracked and not paused.
pause_lem_example :
    let (r, w') = Service.pause engine repository pieces "a" toy_world in
    (r ≡ elim (paused_of "a" toy_world) [
      | none ↦ err Service.err_torrent_not_found
      | some _ ↦ ok tt
    ])
    × (paused_of "a" w' ≡ (
        if "a" == "a"
        then Option.map (λ _. true) (paused_of "a" toy_world)
        else paused_of "a" toy_world))
pause_lem_example =
    pause_lem toy_env (toy_client "film") data_dir toy_env-IsAlwaysUp
      (toy_client-SparesTable "film") "a" toy_world "a" refl

-- The torrent "aa" is paused.
resume-Resumes_example :
    let (r, w') = Service.resume engine repository pieces "aa" toy_world in
    Resumes toy_env
      (toy_client "film")
      data_dir
      toy_env-IsAlwaysUp
      (toy_client-SparesTable "film")
      "aa"
      (row_of "aa" (table toy_world))
      toy_world
      (r, w')
    × (paused_of "aa" w' ≡ (
        if "aa" == "aa"
        then Option.map (λ _. failed r) (paused_of "aa" toy_world)
        else paused_of "aa" toy_world))
resume-Resumes_example =
    resume-Resumes toy_env (toy_client "film") data_dir toy_env-IsAlwaysUp
      (toy_client-SparesTable "film") "aa" toy_world "aa" toy_store-IsValid

remove_lem_example :
    let (res, w') = Service.remove engine repository pieces "a" false toy_world in
    (res ≡ ok tt)
    × ((j : String) → row_of j (table w') ≡ (if j == "a" then none else row_of j (table toy_world)))
    × ((n : ℕ) → piece_of "a" n w'.store.completions ≡ none)
    × ((pk : PieceKey)
        → (if unary pk.info_hash == "a" then map_get pk w'.store.cache else none) ≡ none)
remove_lem_example =
    remove_lem toy_env (toy_client "film") data_dir toy_env-IsAlwaysUp
      (toy_client-SparesTable "film") "a" false toy_world refl refl toy_store-IsValid (λ p w. refl)

-- The torrent "a", which the client has downloaded in full.
abbrev complete_client : Engine.Client (Engine.World Tracked) Hash Hash
complete_client = record (toy_client "film") { bytes_completed = λ h w. 10 }

complete_client-SparesTable : SparesTable complete_client
complete_client-SparesTable =
    let spares = toy_client-SparesTable "film" in
    record {
      add_magnet = λ uri w. spares.add_magnet uri w;
      add_torrent = λ h w. refl;
      got_info = λ h w. refl;
      verify_data = λ h w. spares.verify_data h w;
      download_all = λ h w. refl;
      drop = λ h w. refl;
    }

abbrev stored_a : Rows.Torrent
stored_a = record {
  info_hash = "a";
  magnet = "magnet:?xt=urn:btih:a";
  label = "films";
  target_dir = "";
  paused = false;
  name = "film";
  length = 10;
  bytes_completed = 4;
  created_at = noon;
  updated_at = noon;
}

get_a : ((torrent_repository toy_env).get "a" toy_world).0 ≡ ok stored_a
unfolding Database.get Database.select_torrent call Database.scan_torrent Rows.parse_timestamps
get_a = ground (arith, parse_time-format_time noon (ground arith))

remove_keeps_complete_example :
    (Service.remove
      (torrent_engine toy_env complete_client data_dir)
      repository
      pieces
      "a"
      false
      toy_world).1.disk
    ≡ toy_world.disk
unfolding Service.is_complete Engine.snapshot Engine.with_torrent Engine.find
remove_keeps_complete_example =
    remove_keeps_complete toy_env complete_client data_dir toy_env-IsAlwaysUp
      complete_client-SparesTable "a" toy_world get_a refl (λ t w. refl)
