-- ===== src/Server/Mux/Click.antt =====
-- The button that internal/server/ui/view/torrent/show.templ gives the page of a torrent.
use mathlib.Core.Option
use torrents.Prelude.{
  String, Bool, true, false, ◌==◌, ◌≡◌, refl, ap, ◌∙◌, Option, none, some, eq_iff, arith,
  if◌then◌else◌,
}
use torrents.Go.Exec.{Result, ok, err}
use torrents.Database.Defs.{Env, Hash}
use torrents.Database.Torrents.Order.{IsAlwaysUp}
use torrents.Database.Torrents.Valid.{IsValid, IsClock}
use torrents.Engine.Path.{FilePath}
use torrents.Engine.Defs.{World, Client}
use torrents.Service.Defs.{Torrent}
use torrents.Service.Frame.{SparesTable, table, paused_of}
use torrents.Service.Pausing.{failed}
use torrents.Ui.Defs.{TorrentService, Response, Submission, http_error}
use torrents.Ui.Toggling.{RowShows, PauseAnswers, ResumeAnswers}
use torrents.Ui.Wiring.{torrent_pages}
use torrents.Server.Mux.Links.{Link, pause_button, resume_button}
use torrents.Server.Mux.Visit.{visit, visit_toggles}

-- The action button of the page: a paused torrent can be resumed, any other paused.
unfoldable pub action_button : Torrent → Link
action_button t = if t.paused then resume_button t.info_hash else pause_button t.info_hash

-- A click on the button of the torrent of a hash: one that went through shows the torrent's row with
-- the other flag and leaves that flag; one that did not shows an error and leaves the flag.
abbrev pub Flips :
    {C T M : Type 0}
    → Env
    → Client (World C) T M
    → String
    → Bool
    → Bool
    → Option Response × World C
    → Type 0
Flips env client h before true (answer, w) =
    (answer ≡ some (http_error "failed to toggle torrent" 500)) × (paused_of h w ≡ some before)
Flips env client h before false (answer, w) =
    ((r : Response) × (answer ≡ some r)
      × RowShows env client h w (if before then false else true) r)
    × (paused_of h w ≡ some (if before then false else true))

module _ {C T M : Type 0} (env : Env) (client : Client (World C) T M) (data_dir : FilePath)
    (form : Result Submission) (files : String) (up : IsAlwaysUp env) (clock : IsClock env)
    (spares : SparesTable client) where
  abbrev pages : TorrentService (World C)
  pages = torrent_pages env client data_dir

  -- Whether the click fails: a pause of a managed torrent does not.
  abbrev pub fails : Torrent → World C → Bool
  fails t w = if t.paused then failed (pages.resume t.info_hash w).0 else false

  resume-Flips :
      (h : String) (w : World C) (res : Result (Unit {0})) (answer : Option Response)
      → ((r : Response) × (answer ≡ some r) × ResumeAnswers env client h w res r)
      → paused_of h w ≡ some (failed res)
      → Flips env client h true (failed res) (answer, w)
  resume-Flips h w (ok u) answer (r, e, shows) f = ((r, e, shows), f)
  resume-Flips h w (err x) answer (r, e, refused) f = (e ∙ ap some refused, f)

  pause-Flips :
      (h : String) (w : World C) (before : Option Bool) (answer : Option Response)
      → before ≡ some false
      → ((r : Response) × (answer ≡ some r) × PauseAnswers env client h w before r)
      → paused_of h w ≡ Option.map (λ _. true) before
      → Flips env client h false false (answer, w)
  pause-Flips h w none answer e shows f = absurd (ground (arith, e))
  pause-Flips h w (some b) answer e shows f = (shows, f)

  button-Flips :
      (h : String) (b : Bool) (w : World C) {k : Hash}
      → h == "" ≡ false
      → env.from_hex_string h ≡ ok k
      → IsValid (table w)
      → paused_of h w ≡ some b
      → Flips env client h b
          (if b then failed (pages.resume h w).0 else false)
          (visit pages form files (if b then resume_button h else pause_button h) w)
  button-Flips h true w named parsed v shown =
      let t = visit_toggles env client data_dir form files up clock spares h w h named parsed v in
      resume-Flips h _ (pages.resume h w).0 _ t.2 (t.3 ∙ rw ((eq_iff h h).1 refl, shown) refl)
  button-Flips h false w named parsed v shown =
      let t = visit_toggles env client data_dir form files up clock spares h w h named parsed v in
      pause-Flips h _ (paused_of h w) _ shown t.0 (t.1 ∙ rw ((eq_iff h h).1 refl) refl)

  -- With no database call failing, a clock that keeps nanoseconds below a second, a client that
  -- spares the table `torrent`, a valid table, and a page that shows a managed torrent with its flag
  -- as it is, under a hash that parses and is not empty: a click on the page's action button changes
  -- the flag and gets the row of that torrent with the new flag, unless the torrent was paused and
  -- the service does not resume it: then it gets an error, and the torrent stays paused.
  pub click-Flips :
      (t : Torrent) (w : World C) {k : Hash}
      → t.info_hash == "" ≡ false
      → env.from_hex_string t.info_hash ≡ ok k
      → IsValid (table w)
      → paused_of t.info_hash w ≡ some t.paused
      → Flips env client t.info_hash t.paused
          (fails t w)
          (visit pages form files (action_button t) w)
  unfolding action_button
  click-Flips t w named parsed v shown = button-Flips t.info_hash t.paused w named parsed v shown
