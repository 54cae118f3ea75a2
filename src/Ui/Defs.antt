-- ===== src/Ui/Defs.antt =====
-- internal/server/ui/ui_torrent.go: the handlers of the web interface. A request is given as the
-- standard library reads it; a page is given as the view and the model that it renders.
use torrents.Prelude.{ℕ, String, Bool, Option, none, some, List, [], ◌∷◌, ◌==◌, if◌then◌else◌}
use torrents.Go.Errors.{Error, Sentinel, sentinel, Message, text, message, is}
use torrents.Go.Exec.{Result, ok, err, Exec, or_else, pure, raise}
use torrents.Service.Defs.{AddOptions, Torrent, File}

abbrev pub err_missing_magnet : Error
err_missing_magnet = sentinel Sentinel.ui_missing_magnet

abbrev pub err_missing_file : Error
err_missing_file = sentinel Sentinel.ui_missing_file

pub record TorrentService (S : Type 0) : Type 0 where
  pub add_magnet : String → AddOptions → Exec S Torrent
  pub add_file : String → AddOptions → Exec S Torrent
  pub get : String → Exec S Torrent
  pub files : String → Exec S (List File)
  pub list : Exec S (List Torrent)
  pub remove : String → Bool → Exec S (Unit {0})
  pub pause : String → Exec S (Unit {0})
  pub resume : String → Exec S (Unit {0})

pub record AddTorrentForm : Type 0 where
  pub source : String
  pub magnet : String
  pub label : String
  pub target_dir : String

-- The form's values as `FormValue` returns them, and the part `file` if there is one.
pub record Submission : Type 0 where
  pub values : AddTorrentForm
  pub file : Option String

pub record Request : Type 0 where
  pub form : Result Submission
  pub hash : String
  pub files : String

pub record NewViewModel : Type 0 where
  pub source : String
  pub magnet : String
  pub label : String
  pub target_dir : String
  pub error : Message

-- A view with its model.
pub data Page : Type 0 where
  list_page : List Torrent → Page
  show_page : Torrent → List File → Page
  detail_fragment : Torrent → List File → Page
  new_page : NewViewModel → Page
  table_fragment : List Torrent → Page
  row_fragment : Torrent → Page

-- What a handler writes: a rendered page, `http.Error`, `http.Redirect`, or a status alone.
pub data Response : Type 0 where
  render : ℕ → Page → Response
  http_error : String → ℕ → Response
  redirect : String → ℕ → Response
  write_header : ℕ → Response

abbrev pub empty_form : AddTorrentForm
empty_form = record { source = ""; magnet = ""; label = ""; target_dir = "" }

abbrev pub render_new_error : AddTorrentForm → Message → Response
render_new_error form m = render 400 (
    new_page (record {
      source = form.source;
      magnet = form.magnet;
      label = form.label;
      target_dir = form.target_dir;
      error = m;
    }))

-- The form with its source, "magnet" if none was given.
abbrev pub form_of : Submission → AddTorrentForm
form_of sub = record (sub.values) {
  source = if sub.values.source == "" then "magnet" else sub.values.source;
}

-- The message under which a failed submission shows the form again.
unfoldable pub add_error : Error → Message
add_error e =
    if is e Sentinel.ui_missing_magnet
    then text "magnet URI is required" ∷ []
    else if is e Sentinel.ui_missing_file
    then text "a torrent file is required" ∷ []
    else if is e Sentinel.service_invalid_torrent_file
    then text "invalid torrent file" ∷ []
    else if is e Sentinel.service_torrent_already_exists
    then text "torrent already exists" ∷ []
    else text "failed to add torrent: " ∷ message e

module _ {S : Type 0} (torrents : TorrentService S) where
  unfoldable pub list : Request → S → Response × S
  list r s =
      let (found, s') = torrents.list s in
      elim found [
        | ok ts ↦ (render 200 (list_page ts), s')
        | err e ↦ (http_error "failed to list torrents" 500, s')
      ]

  -- `files, _ := h.torrents.Files(...)`
  unfoldable pub files_or_none : String → S → List File × S
  files_or_none hash s =
      let (found, s') = torrents.files hash s in elim found [ ok fs ↦ (fs, s') | err e ↦ ([], s') ]

  unfoldable pub show : Request → S → Response × S
  unfolding files_or_none
  show r s =
      let (found, s') = torrents.get r.hash s in
      elim found [
        | err e ↦ (
          if is e Sentinel.service_torrent_not_found
              then http_error "torrent not found" 404
              else http_error "failed to load torrent" 500,
          s',
        )
        | ok t ↦ let (fs, s'') = files_or_none r.hash s' in (render 200 (show_page t fs), s'')
      ]

  unfoldable pub detail : Request → S → Response × S
  unfolding files_or_none
  detail r s =
      let (found, s') = torrents.get r.hash s in
      elim found [
        | err e ↦ (http_error "failed to load torrent" 500, s')
        | ok t ↦ let (fs, s'') = files_or_none r.hash s' in (render 200 (detail_fragment t fs), s'')
      ]

  unfoldable pub new : Request → S → Response × S
  new r s = (
    render 200
        (new_page (record { source = ""; magnet = ""; label = ""; target_dir = ""; error = [] })),
    s,
  )

  unfoldable pub torrent_table : Request → S → Response × S
  torrent_table r s =
      let (found, s') = torrents.list s in
      elim found [
        | ok ts ↦ (render 200 (table_fragment ts), s')
        | err e ↦ (http_error "failed to list torrents" 500, s')
      ]

  unfoldable pub add_magnet : AddTorrentForm → Exec S (Unit {0})
  add_magnet form =
      if form.magnet == ""
      then raise err_missing_magnet
      else or_else
          (torrents.add_magnet form.magnet
            (record { label = form.label; target_dir = form.target_dir }))
          raise (λ t. pure tt)

  unfoldable pub add_file : Option String → AddTorrentForm → Exec S (Unit {0})
  add_file none form = raise err_missing_file
  add_file (some file) form =
      or_else (torrents.add_file file (record { label = form.label; target_dir = form.target_dir }))
        raise (λ t. pure tt)

  -- The switch on the form's source.
  unfoldable pub submit : Submission → Exec S (Unit {0})
  unfolding add_magnet add_file
  submit sub =
      if (form_of sub).source == "file"
      then add_file sub.file (form_of sub)
      else add_magnet (form_of sub)

  unfoldable pub add : Request → S → Response × S
  unfolding submit add_error
  add r s = elim r.form [
    | err e ↦ (render_new_error empty_form (text "failed to parse form: " ∷ message e), s)
    | ok sub ↦
        let (done, s') = submit sub s in
        elim done [
          | err e ↦ (render_new_error (form_of sub) (add_error e), s')
          | ok _ ↦ (redirect "/" 303, s')
        ]
  ]

  unfoldable pub toggle : (String → Exec S (Unit {0})) → Request → S → Response × S
  toggle action r s =
      let (done, s') = action r.hash s in
      elim done [
        | err e ↦ (http_error "failed to toggle torrent" 500, s')
        | ok _ ↦
            let (found, s'') = torrents.get r.hash s' in
            elim found [
              | err e ↦ (http_error "failed to load torrent" 500, s'')
              | ok t ↦ (render 200 (row_fragment t), s'')
            ]
      ]

  unfoldable pub pause : Request → S → Response × S
  unfolding toggle
  pause = toggle torrents.pause

  unfoldable pub resume : Request → S → Response × S
  unfolding toggle
  resume = toggle torrents.resume

  unfoldable pub delete : Request → S → Response × S
  delete r s =
      let delete_files = r.files == "true" in
      let (done, s') = torrents.remove r.hash delete_files s in
      elim done [
        | err e ↦ (http_error "failed to delete torrent" 500, s')
        | ok _ ↦ (write_header 200, s')
      ]
