-- ===== src/Tests/RoutesTests.antt =====
-- The theorems on the routes and the migrations.
use torrents.Prelude.{String, true, false, ◌≡◌, refl, ◌==◌, some, List, [], ◌∷◌, if◌then◌else◌}
use torrents.Database.Defs.{format_time}
use torrents.Database.Torrents.Valid.{IsValid}
use torrents.Database.Schema.{execute_all}
use torrents.Database.Schema.Migrations.{upgrade, everything, downgrade}
use torrents.Database.Schema.Versions.{OldRow, newer, first_version, last_version, empty}
use torrents.Database.Schema.Upgrade.{upgrade_lem}
use torrents.Server.Mux.Routes.{dispatch}
use torrents.Server.Mux.Links.{
  torrent_link, pause_button, resume_button, method_of, path_of, meant, dispatch-link,
}
use torrents.Server.Mux.ApiRoutes.{named, dispatch-route}
use mathlib.Core.Option
use torrents.Server.Mux.Visit.{visit, visit_toggles}
use torrents.Server.Mux.Click.{action_button, Flips}
use torrents.Server.Mux.Opened.{refused, page-Flips}
use torrents.Service.Defs.{Torrent, File}
use torrents.Service.Frame.{paused_of}
use torrents.Service.Pausing.{failed}
use torrents.Ui.Defs.{Response, render, show_page}
use torrents.Ui.Toggling.{PauseAnswers, ResumeAnswers}
use torrents.Tests.PagesTests.{pages, request}
use torrents.Tests.Fixtures.{
  noon, noon-HasTime, toy_env, toy_env-IsAlwaysUp, toy_env-IsClock, toy_client,
  toy_client-SparesTable, toy_world, toy_store-IsValid, data_dir,
}

dispatch-link_example :
    dispatch (method_of (pause_button "a")) (path_of (pause_button "a"))
    ≡ some (meant (pause_button "a"))
dispatch-link_example = dispatch-link (pause_button "a") refl

dispatch-route_example :
    dispatch "HEAD" ("api" ∷ "v1" ∷ "torrents" ∷ "a" ∷ []) ≡ named "HEAD" ("a" ∷ [])
dispatch-route_example = dispatch-route "HEAD" ("a" ∷ []) (refl, tt)

abbrev old_row : String → OldRow
old_row h = record {
  info_hash = h;
  magnet = "magnet:?xt=urn:btih:a";
  label = "films";
  target_dir = "";
  is_paused = true;
  created_at = format_time noon;
  updated_at = format_time noon;
}

abbrev old_rows : List OldRow
old_rows = old_row "a" ∷ old_row "aa" ∷ []

upgrade_lem_example :
    (execute_all upgrade (first_version old_rows)
      ≡ some (last_version (newer (old_row "a") ∷ newer (old_row "aa") ∷ []) []))
    × IsValid (newer (old_row "a") ∷ newer (old_row "aa") ∷ [])
    × (execute_all downgrade (last_version (newer (old_row "a") ∷ newer (old_row "aa") ∷ []) [])
        ≡ some (first_version old_rows))
    × (execute_all everything empty ≡ some (last_version [] []))
upgrade_lem_example =
    upgrade_lem old_rows ((refl, tt), (tt, tt))
      ((noon-HasTime, noon-HasTime), ((noon-HasTime, noon-HasTime), tt))

-- The button of the torrent "a", seen by the torrent "aa".
visit_toggles_example :
    let (p, w1) = visit pages request.form request.files (pause_button "a") toy_world in
    let (q, w2) = visit pages request.form request.files (resume_button "a") toy_world in
    let failure = failed (pages.resume "a" toy_world).0 in
    ((r : Response) × (p ≡ some r)
      × PauseAnswers toy_env (toy_client "film") "a" w1 (paused_of "a" toy_world) r)
    × (paused_of "aa" w1 ≡ (
        if "aa" == "a"
        then Option.map (λ _. true) (paused_of "aa" toy_world)
        else paused_of "aa" toy_world))
    × ((r : Response) × (q ≡ some r)
        × ResumeAnswers toy_env (toy_client "film") "a" w2 (pages.resume "a" toy_world).0 r)
    × (paused_of "aa" w2 ≡ (
        if "aa" == "a"
        then Option.map (λ _. failure) (paused_of "aa" toy_world)
        else paused_of "aa" toy_world))
visit_toggles_example =
    visit_toggles toy_env (toy_client "film") data_dir request.form request.files toy_env-IsAlwaysUp
      toy_env-IsClock (toy_client-SparesTable "film") "a" toy_world "aa" refl refl toy_store-IsValid

-- The torrent "a" is not paused.
page-Flips_example :
    let (page, w') = visit pages request.form request.files (torrent_link "a") toy_world in
    (t : Torrent) × (fs : List File) × (page ≡ some (render 200 (show_page t fs)))
    × (t.info_hash ≡ "a")
    × (t.paused ≡ false)
    × Flips toy_env
        (toy_client "film")
        "a"
        false
        (refused toy_env
          (toy_client "film")
          data_dir
          request.form
          request.files
          toy_env-IsAlwaysUp
          toy_env-IsClock
          (toy_client-SparesTable "film")
          "a"
          false
          w')
        (visit pages request.form request.files (action_button t) w')
page-Flips_example =
    page-Flips toy_env (toy_client "film") data_dir request.form request.files toy_env-IsAlwaysUp
      toy_env-IsClock (toy_client-SparesTable "film") "a" false toy_world refl refl refl
      toy_store-IsValid refl
