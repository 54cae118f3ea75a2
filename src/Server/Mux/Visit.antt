-- ===== src/Server/Mux/Visit.antt =====
-- A button of a page, from the address that it asks for down to the tables.
use mathlib.Core.Option
use mathlib.Core.Path.{subst}
use torrents.Prelude.{
  String, true, false, ◌==◌, ◌≡◌, sym, ap, ◌∙◌, Option, none, some, if◌then◌else◌,
}
use torrents.Go.Exec.{Result, ok}
use torrents.Database.Defs.{Env, Hash}
use torrents.Database.Torrents.Order.{IsAlwaysUp}
use torrents.Database.Torrents.Valid.{IsValid, IsClock}
use torrents.Engine.Path.{FilePath}
use torrents.Engine.Defs.{World, Client}
use torrents.Service.Frame.{SparesTable, table, paused_of}
use torrents.Service.Pausing.{pause_lem, resume_lem, failed}
use torrents.Ui.Defs as Ui
use torrents.Ui.Defs.{TorrentService, Request, Response, Submission}
use torrents.Ui.Wiring.{torrent_pages}
use torrents.Ui.Toggling.{PauseAnswers, ResumeAnswers, pause-PauseAnswers, toggled_flags}
use torrents.Server.Mux.Routes.{
  Handler, ui_list, ui_new, ui_show, ui_add, ui_table, ui_detail, ui_pause, ui_resume, ui_delete,
  dispatch,
}
use torrents.Server.Mux.Links.{
  Link, pause_button, resume_button, method_of, path_of, meant, HasHash, dispatch-link,
}

-- The handlers that the pages register.
abbrev pub page_handler :
    {S : Type 0} → TorrentService S → Handler → Option (Request → S → Response × S)
page_handler torrents ui_list = some (Ui.list torrents)
page_handler torrents ui_new = some (Ui.new torrents)
page_handler torrents ui_show = some (Ui.show torrents)
page_handler torrents ui_add = some (Ui.add torrents)
page_handler torrents ui_table = some (Ui.torrent_table torrents)
page_handler torrents ui_detail = some (Ui.detail torrents)
page_handler torrents ui_pause = some (Ui.pause torrents)
page_handler torrents ui_resume = some (Ui.resume torrents)
page_handler torrents ui_delete = some (Ui.delete torrents)
page_handler torrents _ = none

module _ {S : Type 0} (torrents : TorrentService S) (form : Result Submission)
    (files : String) where
  abbrev pub request_to : String → Request
  request_to hash = record { form = form; hash = hash; files = files }

  abbrev pub handle : Option (Handler × String) → S → Option Response × S
  handle none s = (none, s)
  handle (some (h, hash)) s = elim (page_handler torrents h) [
    | none ↦ (none, s)
    | some f ↦ let (r, s') = f (request_to hash) s in (some r, s')
  ]

  -- What the server does with the request of a link.
  abbrev pub visit : Link → S → Option Response × S
  visit l s = handle (dispatch (method_of l) (path_of l)) s

  pub visited : (l : Link) (s : S) → HasHash l → visit l s ≡ handle (some (meant l)) s
  visited l s e = ap (λ o. handle o s) (dispatch-link l e)

module _ {C T M : Type 0} (env : Env) (client : Client (World C) T M) (data_dir : FilePath)
    (form : Result Submission) (files : String) (up : IsAlwaysUp env) (clock : IsClock env)
    (spares : SparesTable client) where
  abbrev pages : TorrentService (World C)
  pages = torrent_pages env client data_dir

  -- With no database call failing, a clock that keeps nanoseconds below a second, a client that
  -- spares the table `torrent`, a valid table and a hash that parses and is not empty: the pause
  -- button of a torrent gets the row of that torrent, as the table and the client have it afterwards,
  -- flagged, and sets its flag, and that of no other torrent; where the torrent is not managed it
  -- gets an error, and no flag changes. The resume button gets the row of the torrent, without the
  -- flag, where the service took the torrent up again, and an error otherwise; the torrent's flag is
  -- then whether that failed, and no other flag changes.
  pub visit_toggles :
      (h : String) (w : World C) (j : String) {k : Hash}
      → h == "" ≡ false
      → env.from_hex_string h ≡ ok k
      → IsValid (table w)
      → let (p, w1) = visit pages form files (pause_button h) w in
        let (q, w2) = visit pages form files (resume_button h) w in
        let failure = failed (pages.resume h w).0 in
        ((r : Response) × (p ≡ some r) × PauseAnswers env client h w1 (paused_of h w) r)
        × (paused_of j w1
            ≡ (if j == h then Option.map (λ _. true) (paused_of j w) else paused_of j w))
        × ((r : Response) × (q ≡ some r) × ResumeAnswers env client h w2 (pages.resume h w).0 r)
        × (paused_of j w2
            ≡ (if j == h then Option.map (λ _. failure) (paused_of j w) else paused_of j w))
  visit_toggles h w j named parsed v =
      let r : Request = request_to pages form files h in
      let (shown_paused, shown_resumed) =
        pause-PauseAnswers env client data_dir up clock spares r w parsed v in
      let (flag_paused, flag_resumed) = toggled_flags env client data_dir up clock spares r w j v in
      let p = visited pages form files (pause_button h) w named in
      let q = visited pages form files (resume_button h) w named in
      (
        (
          (Ui.pause pages r w).0,
          ap (λ c. c.0) p,
          subst (λ w1. PauseAnswers env client h w1 (paused_of h w) (Ui.pause pages r w).0)
              (sym (ap (λ c. c.1) p)) shown_paused,
        ),
        ap (λ c. paused_of j c.1) p
            ∙ flag_paused
            ∙ (pause_lem env client data_dir up spares h w j parsed).1,
        (
          (Ui.resume pages r w).0,
          ap (λ c. c.0) q,
          subst (λ w2. ResumeAnswers env client h w2 (pages.resume h w).0 (Ui.resume pages r w).0)
              (sym (ap (λ c. c.1) q)) shown_resumed,
        ),
        ap (λ c. paused_of j c.1) q
            ∙ flag_resumed
            ∙ resume_lem env client data_dir up spares h w j v,
      )
