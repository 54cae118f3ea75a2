-- ===== src/Tests/ConcurrencyTests.antt =====
-- The theorems on requests that are under way together.
use torrents.Prelude.{true, false, ◌≡◌, refl, some, List, [], ◌∷◌, arith}
use torrents.Go.Exec.{ok}
use torrents.Database.Defs.{call, parse_timestamps, format_time}
use torrents.Database.Torrents as Rows
use torrents.Database.Pieces as Pieces
use torrents.Database.Torrents.Valid.{IsValid, parse_time-format_time}
use torrents.Engine.Defs.{World}
use torrents.Service.Frame.{table, paused_of}
use torrents.Engine.Defs as Engine
use torrents.Service.Defs as Service
use torrents.Service.Defs.{PieceRepository, AddOptions}
use torrents.Service.Wiring.{piece_repository}
use torrents.Service.Always.{Call, add_magnet_call, pause_call, resume_call, remove_call}
use torrents.Service.Program.{reply}
use torrents.Service.Program.Requests.{done_reply}
use torrents.Service.Program.Pool.{Turn, request_turn, background, begin, take_turns, Runs}
use torrents.Service.Program.Kept.{BackgroundKeeps, take_turns-IsValid}
use torrents.Database.Torrents.Identity.{Identity, identity_of}
use torrents.Service.Program.Retained.{take_turns-Retains}
use torrents.Service.Program.Overtaken.{resumed, pause_overtaken}
use torrents.Tests.PagesTests.{engine, repository}
use torrents.Tests.Fixtures.{
  noon, toy_env, toy_env-IsAlwaysUp, toy_env-IsClock, toy_store-IsValid, toy_client,
  toy_client-SparesTable, toy_world, data_dir, Tracked,
}

abbrev pieces : PieceRepository (World Tracked)
pieces = piece_repository toy_env

-- A goroutine of the torrent client records a piece.
abbrev record_piece : World Tracked → World Tracked
record_piece w = record w {
  store = (Pieces.set toy_env (record { info_hash = 1; index = 7 }) true w.store).1;
}

-- Two requests add the same torrent.
abbrev options : AddOptions
options = record { label = "films"; target_dir = "" }

abbrev together : List Call
together = add_magnet_call "aaa" options ∷ add_magnet_call "aaa" options ∷ remove_call "a" true ∷ []

abbrev pub turns : List (Turn (World Tracked))
turns =
    request_turn 0
    ∷ request_turn 1
    ∷ background record_piece
    ∷ request_turn 1
    ∷ request_turn 0
    ∷ request_turn 2
    ∷ []

pub turns-BackgroundKeeps : BackgroundKeeps {S = World Tracked} (λ v. IsValid (table v)) turns
unfolding Pieces.set call
turns-BackgroundKeeps = (λ w v. v, tt)

take_turns-IsValid_example :
    IsValid (table (take_turns engine repository pieces turns (begin together, toy_world)).1)
take_turns-IsValid_example =
    take_turns-IsValid toy_env (toy_client "film") data_dir toy_env-IsClock
      (toy_client-SparesTable "film") together turns toy_world turns-BackgroundKeeps
      toy_store-IsValid

-- The torrent "a" while it is added again and paused, and another one is removed.
abbrev beside : List Call
beside = add_magnet_call "a" options ∷ pause_call "a" ∷ remove_call "aa" true ∷ []

abbrev film : Identity
film = record {
  magnet = "magnet:?xt=urn:btih:a";
  label = "films";
  target_dir = "";
  created_at = format_time noon;
}

quiet : BackgroundKeeps {S = World Tracked} (λ w. identity_of "a" (table w) ≡ some film) turns
unfolding Pieces.set call
quiet = (λ w m. m, tt)

take_turns-Retains_example :
    identity_of "a" (table (take_turns engine repository pieces turns (begin beside, toy_world)).1)
    ≡ some film
take_turns-Retains_example =
    take_turns-Retains toy_env (toy_client "film") data_dir (toy_client-SparesTable "film") "a" film
      beside turns toy_world (refl, (refl, (refl, tt))) quiet refl

resumed_a :
    (resumed toy_env
      (toy_client "film")
      data_dir
      toy_env-IsAlwaysUp
      toy_env-IsClock
      (toy_client-SparesTable "film")
      "a"
      toy_world).0
    ≡ ok tt
unfolding Service.resume Service.remove_from_engine Service.persist_bytes_completed
    Service.persist_metadata Engine.add_magnet Engine.start Engine.remove Engine.remove_torrent
    Engine.snapshot Engine.with_torrent Engine.find Rows.set_paused Rows.set_bytes_completed
    Rows.set_metadata Rows.update_torrent Rows.check_affected Rows.get Rows.select_torrent
    Rows.scan_torrent parse_timestamps call
resumed_a = ground (
  arith,
  parse_time-format_time noon (ground arith),
  parse_time-format_time (toy_env.now 0) (ground arith),
  parse_time-format_time (toy_env.now 1) (ground arith),
)

pause_overtaken_example :
    let (r, after) =
      resumed toy_env
        (toy_client "film")
        data_dir
        toy_env-IsAlwaysUp
        toy_env-IsClock
        (toy_client-SparesTable "film")
        "a"
        toy_world in
    (w' : World Tracked) × Runs engine repository pieces
      (begin (pause_call "a" ∷ resume_call "a" ∷ []), toy_world)
      (reply (ok done_reply) ∷ reply (ok done_reply) ∷ [], w')
    × (paused_of "a" after ≡ some false)
    × (paused_of "a" w' ≡ some true)
    × (w'.client ≡ after.client)
pause_overtaken_example =
    pause_overtaken toy_env (toy_client "film") data_dir toy_env-IsAlwaysUp toy_env-IsClock
      (toy_client-SparesTable "film") "a" toy_world refl toy_store-IsValid refl resumed_a
