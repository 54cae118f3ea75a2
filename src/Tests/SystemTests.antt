-- ===== src/Tests/SystemTests.antt =====
-- The theorems on the start of the server, the command line, the middleware and the sizes.
use mathlib.Core.Option
use torrents.Prelude.{
  false, ℕ, true, ◌≡◌, refl, none, some, List, [], ◌∷◌, arith, ◌==◌, if◌then◌else◌, String, Bool,
}
use torrents.Go.Errors.{plain}
use torrents.Go.Exec.{err, pure}
use torrents.Database.Torrents.Refines.{write}
use torrents.Engine.Defs.{World}
use torrents.Service.Frame.{table, paused_of}
use torrents.Api.Middleware.{
  Act, html, set_content_type, write_header, write, wrapped, client_status,
}
use torrents.Ui.Sizes.{Shows, human_bytes, human_bytes-Shows}
use torrents.Remote.Server.{serve}
use torrents.Api.Defs as Api
use torrents.Ui.Defs as Ui
use torrents.Ui.Pages.{status}
use torrents.Server.Sending.{page_run, api_run, fails, wrapped-page_run}
use torrents.Tests.PagesTests.{pages, request}
use torrents.Server.Kept.{HostKeeps}
use torrents.Database.Torrents.Valid.{IsValid}
use torrents.Service.Always.{Call, list_call, pause_call, remove_call}
use torrents.Service.Fairness.{Schedule}
use torrents.Server.Start.{Host, run}
use torrents.Server.Orderly.{follow, down, accounts, follow-run}
use torrents.Commands.Defs.{Terminal, execute, exit_code, add_command, pause_command}
use torrents.Commands.Answers.{answer, execute-answer}
use torrents.Commands.Whole.{exit_code-execute}
use torrents.Tests.PagesTests.{
  service, codec, codec-IsFaithful, a-IsPlain, required, unrouted, config,
}
use torrents.Tests.Fixtures.{
  Tracked, data_dir, toy_client, toy_client-SparesTable, toy_env, toy_env-IsAlwaysUp, toy_world,
}

human_bytes-Shows_example : Shows 5242880 (human_bytes 5242880)
human_bytes-Shows_example = human_bytes-Shows 5242880 (ground arith)

-- A page whose rendering fails behind its header.
abbrev acts : List Act
acts = set_content_type "text/html; charset=utf-8" ∷ write_header 200 ∷ write (html "<html>") ∷ []

-- A host on which everything works but the migrations, which have nothing to do, until the server is
-- shut down.
abbrev host : {S : Type 0} → Host S
host = record {
  path_join = λ a b. b;
  join_errors = λ es. plain "invalid";
  to_lower = λ s. s;
  make_dir = λ path. pure tt;
  sql_open = λ path. pure tt;
  ping = pure tt;
  migration_source = pure tt;
  migration_driver = pure tt;
  new_migrate = pure tt;
  migrate_up = λ s. (err (plain "no change"), s);
  no_change = λ e. true;
  close_database = λ s. s;
  new_client = λ path. pure tt;
  close_client = λ s. s;
  listen = λ address s. (some (plain "http: Server closed"), s);
  shutdown = λ s. (none, s);
  listen_first = λ s. true;
  server_closed = λ e. true;
}

follow-run_example :
    let (r, p) = run {S = ℕ} host (pure tt) (pure tt) config (record { state = 0; events = [] }) in
    (follow down p.events ≡ down) × (accounts r p.events ≡ true)
follow-run_example = follow-run {S = ℕ} host (pure tt) (pure tt) config 0

abbrev terminal : Terminal (World Tracked)
terminal = record {
  parse = λ address. none;
  connect = λ address. serve service required unrouted;
  open_file = λ path. err (plain "no such file");
  write_torrent = λ t. none;
  write_torrents = λ ts. none;
}

execute-answer_example :
    execute terminal codec (add_command "localhost" "films" "" "magnet:?aa") toy_world
    ≡ answer service required unrouted codec terminal
        (add_command "localhost" "films" "" "magnet:?aa")
        toy_world
execute-answer_example =
    execute-answer service required unrouted codec terminal codec-IsFaithful "localhost" refl refl
      (add_command "localhost" "films" "" "magnet:?aa") toy_world (refl, refl)

exit_code-execute_example :
    let (r, w') = execute terminal codec (pause_command "localhost" "a") toy_world in
    (exit_code r ≡ elim (paused_of "a" toy_world) [ none ↦ 1 | some _ ↦ 0 ])
    × (paused_of "a" w' ≡ (
        if "a" == "a"
        then Option.map (λ _. true) (paused_of "a" toy_world)
        else paused_of "a" toy_world))
exit_code-execute_example =
    exit_code-execute toy_env (toy_client "film") data_dir required unrouted codec terminal
      toy_env-IsAlwaysUp (toy_client-SparesTable "film") codec-IsFaithful "localhost" "a" toy_world
      "a" refl refl a-IsPlain refl

abbrev json_request : Api.Request
json_request = record {
  media_type = "application/json";
  json = err (plain "EOF");
  form = err (plain "no form");
  hash = "a";
  files = "";
}

-- A view that fails behind its first piece.
abbrev broken_view : Ui.Page → List String × Bool
broken_view p = ("<html>" ∷ [], true)

abbrev answer_page : Ui.Response
answer_page = (Ui.list pages request toy_world).0

abbrev answer_json : Api.Response
answer_json = (Api.get service required json_request toy_world).0

wrapped-page_run_example :
    let (w, log) = wrapped (page_run broken_view answer_page) in
    let (w', log') = wrapped (api_run answer_json) in
    (client_status w ≡ status answer_page)
    × (log ≡ some (if fails broken_view answer_page then 500 else status answer_page))
    × (client_status w' ≡ answer_json.status)
    × (log' ≡ some answer_json.status)
wrapped-page_run_example = wrapped-page_run broken_view answer_page answer_json

host-HostKeeps : HostKeeps host (λ (w : World Tracked). IsValid (table w))
host-HostKeeps = record {
  make_dir = λ path w v. v;
  sql_open = λ path w v. v;
  ping = λ w v. v;
  migration_source = λ w v. v;
  migration_driver = λ w v. v;
  new_migrate = λ w v. v;
  migrate_up = λ w v. v;
  close_database = λ w v. v;
  new_client = λ path w v. v;
  close_client = λ w v. v;
  listen = λ address w v. v;
  shutdown = λ w v. v;
}

abbrev requests : List Call
requests = list_call ∷ pause_call "a" ∷ remove_call "aa" false ∷ []

abbrev schedule : Schedule
schedule = 0 ∷ 0 ∷ 0 ∷ 0 ∷ []
