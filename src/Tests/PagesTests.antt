-- ===== src/Tests/PagesTests.antt =====
-- The theorems on the pages, the client of the API, the restore and the configuration.

use mathlib.Core.Option
use torrents.Prelude.{String, false, ◌≡◌, refl, Option, none, some, [], ◌==◌, if◌then◌else◌}
use torrents.Go.Errors.{Error, plain}
use torrents.Go.Exec.{ok, err}
use torrents.Engine.Path.Plain.{IsPlain}
use torrents.Engine.Defs as Engine
use torrents.Engine.Defs.{World}
use torrents.Service.Defs as Service
use torrents.Service.Wiring.{torrent_repository, torrent_engine, piece_repository}
use torrents.Service.Frame.{table, paused_of}
use torrents.Service.Adding.{Ends, add_magnet-Ends, add_new}
use torrents.Service.Progress.{completed_of, pause_keeps_progress}
use torrents.Database.Torrents.Table.{row_of}
use torrents.Api.Defs.{new_torrent}
use torrents.Api.Defs as Api
use torrents.Api.Deletion.{torrent_service}
use torrents.Ui.Defs as Ui
use torrents.Ui.Defs.{Submission}
use torrents.Ui.Wiring.{torrent_pages}
use torrents.Ui.Pages.{Answers, service_answer, add-Answers}
use torrents.Remote.Defs.{Codec, Call}
use torrents.Remote.Carries.{IsFaithful}
use torrents.Server.{Config}
use torrents.Tests.Fixtures.{
  toy_env, toy_env-IsAlwaysUp, toy_client, toy_client-SparesTable, toy_world, data_dir, Tracked,
}

abbrev pub pages : Ui.TorrentService (World Tracked)
pages = torrent_pages toy_env (toy_client "film") data_dir

abbrev pub service : Api.TorrentService (World Tracked)
service = torrent_service toy_env (toy_client "film") data_dir

abbrev submission : Submission
submission = record {
  values = record { source = ""; magnet = "aa"; label = ""; target_dir = "" };
  file = none;
}

abbrev pub request : Ui.Request
request = record { form = ok submission; hash = "a"; files = "true" }

add-Answers_example :
    Answers submission.values
      (service_answer pages submission toy_world)
      (Ui.add pages request toy_world).0
add-Answers_example = add-Answers pages request submission toy_world refl

-- A decoder that knows the bodies as they are.
abbrev pub codec : Codec
codec = record {
  torrent = λ b. elim b [
    | Api.add_torrent_response t ↦ ok t
    | Api.get_torrent_response t ↦ ok t
    | _ ↦ err (plain "json")
  ];
  torrents = λ b. elim b [ Api.list_torrents_response ts ↦ ok ts | _ ↦ err (plain "json") ];
  nothing = λ b. ok tt;
}

pub codec-IsFaithful : IsFaithful codec
codec-IsFaithful = record {
  added = λ t. refl;
  got = λ t. refl;
  listed = λ ts. refl;
  removed = refl;
  paused = refl;
  resumed = refl;
}

pub a-IsPlain : IsPlain "a"
a-IsPlain = record { no_slash = (refl, tt); not_empty = refl; not_dot = refl; not_dots = refl }

abbrev pub required : String → Option Error
required s = if s == "" then some (plain "magnet: cannot be blank") else none

abbrev pub unrouted : Call → Api.Response
unrouted call = Api.write_error 404 []

abbrev pub engine : Service.TorrentEngine (World Tracked)
engine = torrent_engine toy_env (toy_client "film") data_dir

abbrev pub repository : Service.TorrentRepository (World Tracked)
repository = torrent_repository toy_env

abbrev pub no_error : World Tracked → Option Error
no_error w = none

-- The magnet "a" is of a torrent that is there.
add_magnet-Ends_example :
    Ends toy_env
      (toy_client "film")
      data_dir
      toy_env-IsAlwaysUp
      (ok "a")
      (row_of "a" (table toy_world))
      toy_world
      (engine.add_magnet "a" toy_world).1
      (Service.add_magnet engine repository
        (piece_repository toy_env)
        "a"
        (record { label = "x"; target_dir = "" })
        toy_world)
unfolding Engine.add_magnet Engine.start
add_magnet-Ends_example =
    add_magnet-Ends toy_env (toy_client "film") data_dir toy_env-IsAlwaysUp
      (toy_client-SparesTable "film") "a" (record { label = "x"; target_dir = "" }) toy_world

add_new_example :
    paused_of "aaaa"
      (Service.add_magnet engine repository
        (piece_repository toy_env)
        "aaaa"
        (record { label = "x"; target_dir = "" })
        toy_world).1
    ≡ (if "aaaa" == "aaaa" then some false else paused_of "aaaa" toy_world)
unfolding Engine.add_magnet Engine.start
add_new_example =
    add_new toy_env (toy_client "film") data_dir toy_env-IsAlwaysUp (toy_client-SparesTable "film")
      "aaaa" "aaaa" (record { label = "x"; target_dir = "" }) toy_world
      (engine.add_magnet "aaaa" toy_world).1 "aaaa" refl refl

pause_keeps_progress_example :
    completed_of "a"
      (table (Service.pause engine repository (piece_repository toy_env) "a" toy_world).1)
    ≡ Option.map (λ _. 4) (row_of "a" (table toy_world))
unfolding Engine.find
pause_keeps_progress_example =
    pause_keeps_progress toy_env (toy_client "film") data_dir toy_env-IsAlwaysUp
      (toy_client-SparesTable "film") "a" toy_world refl refl

abbrev pub config : Config
config = record {
  http = record { address = ":7373" };
  data_config = record { directory = "data" };
  logging = record { level = "warn" };
}
