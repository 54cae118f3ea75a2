-- ===== src/Ui/Pages.antt =====
-- The answers of the web interface's handlers.
use mathlib.Core.Path.{subst}
use torrents.Prelude.{
  ℕ, String, Bool, false, [], ◌∷◌, eqb, eq_iff, ◌≡◌, ◌∙◌, refl, Option, none, some, ◌==◌, arith,
  if◌then◌else◌, inl, inr, Bool-cases,
}
use torrents.Go.Errors.{
  Error, Sentinel, Message, sentinel, no_rows, sqlite, plain, wrap, wrap_quoted, plain_quoted,
  annotate, response, text, message, is, tag,
}
use torrents.Go.Exec.{Result, ok, err, Result-cases}
use torrents.Service.Defs.{AddOptions}
use torrents.Api.Status.{status_of}
use torrents.Ui.Defs.{
  TorrentService, AddTorrentForm, Submission, Request, Response, render, http_error, redirect,
  write_header, new_page, form_of, add_magnet, add_file, submit, add, add_error, list, show, detail,
  torrent_table, pause, resume, toggle, delete, files_or_none, err_missing_file, err_missing_magnet,
}

abbrev pub status : Response → ℕ
status (render n p) = n
status (http_error t n) = n
status (redirect url n) = n
status (write_header n) = n

-- 200 or 500, whatever the error is.
abbrev pub plain_status : {A : Type 0} → Result A → ℕ
plain_status (ok a) = 200
plain_status (err e) = 500

-- The sentinel that an error wraps, if it wraps one.
abbrev pub cause : Error → Option Sentinel
cause (sentinel a) = some a
cause (wrap label e) = cause e
cause (wrap_quoted label v e) = cause e
cause (annotate e why) = cause e
cause no_rows = none
cause (sqlite code) = none
cause (plain t) = none
cause (plain_quoted label v) = none
cause (response n m) = none

-- What the form says of an error, by its cause.
abbrev pub shown : Option Sentinel → Error → Message
shown (some Sentinel.ui_missing_magnet) e = text "magnet URI is required" ∷ []
shown (some Sentinel.ui_missing_file) e = text "a torrent file is required" ∷ []
shown (some Sentinel.service_invalid_torrent_file) e = text "invalid torrent file" ∷ []
shown (some Sentinel.service_torrent_already_exists) e = text "torrent already exists" ∷ []
shown _ e = text "failed to add torrent: " ∷ message e

is_cause : Option Sentinel → Sentinel → Bool
is_cause none s = false
is_cause (some a) s = eqb (tag a) (tag s)

is-cause : (e : Error) (s : Sentinel) → is e s ≡ is_cause (cause e) s
unfolding is_cause
is-cause (sentinel a) s = refl
is-cause (wrap label e) s = is-cause e s
is-cause (wrap_quoted label v e) s = is-cause e s
is-cause (annotate e why) s = is-cause e s
is-cause no_rows s = refl
is-cause (sqlite code) s = refl
is-cause (plain t) s = refl
is-cause (plain_quoted label v) s = refl
is-cause (response n m) s = refl

-- The tests of `add_error`, made on the cause.
tested : Option Sentinel → Error → Message
unfolding is_cause
tested c e =
    if is_cause c Sentinel.ui_missing_magnet
    then text "magnet URI is required" ∷ []
    else if is_cause c Sentinel.ui_missing_file
    then text "a torrent file is required" ∷ []
    else if is_cause c Sentinel.service_invalid_torrent_file
    then text "invalid torrent file" ∷ []
    else if is_cause c Sentinel.service_torrent_already_exists
    then text "torrent already exists" ∷ []
    else text "failed to add torrent: " ∷ message e

tested-shown : (c : Option Sentinel) (e : Error) → tested c e ≡ shown c e
unfolding tested
tested-shown none e = refl
tested-shown (some Sentinel.db_torrent_not_found) e = refl
tested-shown (some Sentinel.db_torrent_already_exists) e = refl
tested-shown (some Sentinel.engine_not_found) e = refl
tested-shown (some Sentinel.engine_invalid_file) e = refl
tested-shown (some Sentinel.service_torrent_not_found) e = refl
tested-shown (some Sentinel.service_torrent_already_exists) e = refl
tested-shown (some Sentinel.service_invalid_torrent_file) e = refl
tested-shown (some Sentinel.ui_missing_magnet) e = refl
tested-shown (some Sentinel.ui_missing_file) e = refl

add_error-tested : (e : Error) → add_error e ≡ tested (cause e) e
unfolding add_error tested
add_error-tested e = ground (
  arith,
  is-cause e Sentinel.ui_missing_magnet,
  is-cause e Sentinel.ui_missing_file,
  is-cause e Sentinel.service_invalid_torrent_file,
  is-cause e Sentinel.service_torrent_already_exists,
)

-- What the browser gets for a submitted form, by the service's answer to it: a redirect to the list,
-- or the form again with the submitted values and a message.
abbrev pub Answers : AddTorrentForm → Result (Unit {0}) → Response → Type 0
Answers values (ok _) answer = answer ≡ redirect "/" 303
Answers values (err e) answer =
    answer
    ≡ render 400 (
        new_page (record {
          source = if values.source == "" then "magnet" else values.source;
          magnet = values.magnet;
          label = values.label;
          target_dir = values.target_dir;
          error = shown (cause e) e;
        }))

abbrev pub answer_of : {A S : Type 0} → Result A × S → Result (Unit {0})
answer_of (ok a, s) = ok tt
answer_of (err e, s) = err e

-- A form without a source is not one of a file.
from_file : (s : String) → ((if s == "" then "magnet" else s) == "file") ≡ (s == "file")
from_file s = elim (Bool-cases (s == "")) [
  | inl e ↦ rw (e, (eq_iff s "").0 e) refl
  | inr e ↦ rw e refl
]

module _ {S : Type 0} (torrents : TorrentService S) where
  -- The answer to a submission: the service's, or that the file or the magnet is missing.
  abbrev pub service_answer : Submission → S → Result (Unit {0})
  service_answer sub s =
      let values = sub.values in
      let opts : AddOptions = record { label = values.label; target_dir = values.target_dir } in
      if values.source == "file"
      then elim sub.file [
        | none ↦ err err_missing_file
        | some file ↦ answer_of (torrents.add_file file opts s)
      ]
      else if values.magnet == ""
      then err err_missing_magnet
      else answer_of (torrents.add_magnet values.magnet opts s)

  file_answer :
      (file : Option String) (form : AddTorrentForm) (s : S)
      → (add_file torrents file form s).0 ≡ elim file [
        | none ↦ err err_missing_file
        | some file ↦
            answer_of (
              torrents.add_file file
                (record { label = form.label; target_dir = form.target_dir })
                s)
      ]
  unfolding add_file
  file_answer none form s = refl
  file_answer (some file) form s = ground arith

  magnet_answer :
      (form : AddTorrentForm) (s : S)
      → (add_magnet torrents form s).0 ≡ (
          if form.magnet == ""
          then err err_missing_magnet
          else answer_of (
              torrents.add_magnet form.magnet
                (record { label = form.label; target_dir = form.target_dir })
                s))
  unfolding add_magnet
  magnet_answer form s = ground arith

  submit_answer : (sub : Submission) (s : S) → (submit torrents sub s).0 ≡ service_answer sub s
  unfolding submit
  submit_answer sub s = elim (Bool-cases (sub.values.source == "file")) [
    | inl e ↦ rw (e, from_file sub.values.source ∙ e, submit) (file_answer sub.file (form_of sub) s)
    | inr e ↦ rw (e, from_file sub.values.source ∙ e, submit) (magnet_answer (form_of sub) s)
  ]

  add-submit :
      (r : Request) (sub : Submission) (s : S)
      → r.form ≡ ok sub
      → Answers sub.values (submit torrents sub s).0 (add torrents r s).0
  unfolding add
  add-submit r sub s parsed = elim (Result-cases (submit torrents sub s).0) [
    | inl (t, x) ↦ rw (parsed, x, add) refl
    | inr (e, x) ↦ rw (parsed, x, add) (rw (add_error-tested e ∙ tested-shown (cause e) e) refl)
  ]

  -- A submitted form that parses redirects to the list if the service takes the torrent, and
  -- otherwise shows the form again, with status 400, the submitted values, the source "magnet" if
  -- none was given, and a message: four causes, among them a missing file or magnet, have a text of
  -- their own, and any other error is shown behind "failed to add torrent: ".
  pub add-Answers :
      (r : Request) (sub : Submission) (s : S)
      → r.form ≡ ok sub
      → Answers sub.values (service_answer sub s) (add torrents r s).0
  add-Answers r sub s parsed =
      subst (λ a. Answers sub.values a (add torrents r s).0) (submit_answer sub s)
        (add-submit r sub s parsed)

  -- The torrent's page tells a missing torrent, 404, from any other failure, 500, while the lists,
  -- the fragment of the page, the deletion and the two toggles answer 500 to every error, a missing
  -- torrent included; a toggle that succeeds answers by whether the torrent can be read after it.
  pub page_status :
      (r : Request) (s : S)
      → (status (show torrents r s).0 ≡ status_of (torrents.get r.hash s).0)
        × (status (detail torrents r s).0 ≡ plain_status (torrents.get r.hash s).0)
        × (status (list torrents r s).0 ≡ plain_status (torrents.list s).0)
        × (status (torrent_table torrents r s).0 ≡ plain_status (torrents.list s).0)
        × (status (delete torrents r s).0
            ≡ plain_status (torrents.remove r.hash (r.files == "true") s).0)
        × (status (pause torrents r s).0 ≡ elim (torrents.pause r.hash s).0 [
          | ok _ ↦ plain_status (torrents.get r.hash (torrents.pause r.hash s).1).0
          | err e ↦ 500
        ])
        × (status (resume torrents r s).0 ≡ elim (torrents.resume r.hash s).0 [
          | ok _ ↦ plain_status (torrents.get r.hash (torrents.resume r.hash s).1).0
          | err e ↦ 500
        ])
  unfolding show detail list torrent_table delete pause resume toggle files_or_none
  page_status r s = (
    ground arith,
    ground arith,
    ground arith,
    ground arith,
    ground arith,
    ground arith,
    ground arith,
  )
