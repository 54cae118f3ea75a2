-- ===== src/Server/Mux/Opened.antt =====
-- The page of a torrent as the server renders it, and a click on the button that it has.
use mathlib.Core.Option
use mathlib.Core.Path.{subst}
use torrents.Prelude.{
  String, Bool, false, ◌==◌, ◌≡◌, refl, sym, ap, ◌∙◌, some, inl, inr, List, arith, Option-cases,
  if◌then◌else◌,
}
use torrents.Go.Exec.{Result, ok, Result-cases}
use torrents.Database.Defs.{Row, Env, Hash}
use torrents.Database.Torrents.Table.{row_of}
use torrents.Database.Torrents.Order.{IsAlwaysUp}
use torrents.Database.Torrents.Valid.{IsValid, IsClock}
use torrents.Engine.Path.{FilePath}
use torrents.Engine.Defs as Engine
use torrents.Engine.Defs.{World, Client}
use torrents.Service.Defs as Service
use torrents.Service.Defs.{Torrent, File}
use torrents.Service.Frame.{SparesTable, table, paused_of}
use torrents.Service.Listing.{get-Finds}
use torrents.Service.Pausing.{failed, get_missing_row, get_found_row}
use torrents.Ui.Defs as Ui
use torrents.Ui.Defs.{TorrentService, Request, Response, Submission, render, show_page}
use torrents.Ui.Toggling.{get_shows}
use torrents.Ui.Wiring.{torrent_pages}
use torrents.Server.Mux.Links.{torrent_link, meant}
use torrents.Server.Mux.Visit.{visit, visited, handle, request_to}
use torrents.Server.Mux.Click.{Flips, action_button, click-Flips}

module _ {C T M : Type 0} (env : Env) (client : Client (World C) T M) (data_dir : FilePath)
    (form : Result Submission) (files : String) (up : IsAlwaysUp env) (clock : IsClock env)
    (spares : SparesTable client) where
  abbrev pages : TorrentService (World C)
  pages = torrent_pages env client data_dir

  -- Reading the files of a torrent leaves the table alone.
  table-files : (h : String) (w : World C) → IsValid (table w) → table (pages.files h w).1 ≡ table w
  unfolding Service.files Service.load_error Engine.files Engine.with_torrent Engine.find
      Engine.files_of
  table-files h w v = elim (Option-cases (row_of h (table w))) [
    | inl gone ↦ ground (arith, get_missing_row env client data_dir up spares h w gone)
    | inr (r, there) ↦
        let (t, found, _) = get_found_row env client data_dir up spares h w v there in
        ground (arith, found)
  ]

  shown_page :
      (r : Request) (w : World C) (t : Torrent)
      → (pages.get r.hash w).0 ≡ ok t
      → let end = Ui.files_or_none pages r.hash (pages.get r.hash w).1 in
        Ui.show pages r w ≡ (render 200 (show_page t end.0), end.1)
  unfolding Ui.show
  shown_page r w t found = ground (arith, found)

  table-files_or_none :
      (h : String) (w : World C)
      → IsValid (table w)
      → table (Ui.files_or_none pages h w).1 ≡ table w
  unfolding Ui.files_or_none
  table-files_or_none h w v = elim (Result-cases (pages.files h w).0) [
    | inl (fs, e) ↦ ground (arith, e, table-files h w v)
    | inr (x, e) ↦ ground (arith, e, table-files h w v)
  ]

  -- Whether the click fails: a pause of a managed torrent does not.
  abbrev pub refused : String → Bool → World C → Bool
  refused h b w = if b then failed (pages.resume h w).0 else false

  opens :
      (h : String) (w : World C)
      → "new" == h ≡ false
      → handle pages form files (some (meant (torrent_link h))) w ≡ (
        some (Ui.show pages (request_to pages form files h) w).0,
        (Ui.show pages (request_to pages form files h) w).1,
      )
  opens h w new = rw new refl

  click :
      (h : String) (b : Bool) (t : Torrent) (w : World C) {k : Hash}
      → t.info_hash ≡ h
      → t.paused ≡ b
      → h == "" ≡ false
      → env.from_hex_string h ≡ ok k
      → IsValid (table w)
      → paused_of h w ≡ some b
      → Flips env client h b (refused h b w) (visit pages form files (action_button t) w)
  click h b t w {k} hash shown named parsed v flag =
      let end = visit pages form files (action_button t) w in
      subst (λ i. Flips env client i b (refused i b w) end) hash
        (subst (λ c. Flips env client t.info_hash c (refused t.info_hash c w) end) shown
          (click-Flips env client data_dir form files up clock spares t w
            (subst (λ i. i == "" ≡ false) (sym hash) named)
            (subst (λ i. env.from_hex_string i ≡ ok k) (sym hash) parsed) v
            (subst (λ i. paused_of i w ≡ some t.paused) (sym hash) (flag ∙ ap some (sym shown)))))

  -- With no database call failing, a clock that keeps nanoseconds below a second, a client that
  -- spares the table `torrent`, a valid table, and a managed torrent whose hash parses and is not
  -- empty nor "new": the address of its page gets its page, with its flag, and a click on the action button of
  -- that page changes the flag and gets the row of the torrent with the new flag, as the table and
  -- the client then have it, unless the torrent was paused and the service does not resume it: then
  -- the click gets an error, and the torrent stays paused.
  pub page-Flips :
      (h : String) (b : Bool) (w : World C) {k : Hash}
      → h == "" ≡ false
      → "new" == h ≡ false
      → env.from_hex_string h ≡ ok k
      → IsValid (table w)
      → paused_of h w ≡ some b
      → let (page, w') = visit pages form files (torrent_link h) w in
        (t : Torrent) × (fs : List File) × (page ≡ some (render 200 (show_page t fs)))
        × (t.info_hash ≡ h)
        × (t.paused ≡ b)
        × Flips env client h b (refused h b w') (visit pages form files (action_button t) w')
  page-Flips h b w named new parsed v flag =
      let r : Request = request_to pages form files h in
      let (t, row, found, there, hash, seen, shown) =
        get_shows env client data_dir up clock spares h w b v flag in
      let w1 = (pages.get h w).1 in
      let kept1 = (get-Finds env client data_dir up h w v).1 in
      let v1 = subst IsValid (sym kept1) v in
      let fs = (Ui.files_or_none pages h w1).0 in
      let w2 = (Ui.files_or_none pages h w1).1 in
      let kept = table-files_or_none h w1 v1 ∙ kept1 in
      let page : visit pages form files (torrent_link h) w
          ≡ (some (render 200 (show_page t fs)), w2) =
        visited pages form files (torrent_link h) w named
        ∙ opens h w new
        ∙ ap (λ (x : Response × World C). (some x.0, x.1)) (shown_page r w t found) in
      (
        t,
        fs,
        ap (λ c. c.0) page,
        hash,
        shown,
        subst
            (λ (w' : World C).
              Flips env client h b (refused h b w') (visit pages form files (action_button t) w'))
            (sym (ap (λ c. c.1) page))
            (click h b t w2 hash shown named parsed (subst IsValid (sym kept) v)
              (ap (λ rows. Option.map (λ (q : Row). q.is_paused) (row_of h rows)) kept ∙ flag)),
      )
