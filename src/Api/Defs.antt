-- ===== src/Api/Defs.antt =====
-- internal/server/api/api.go and torrent.go: the types of the wire and the handlers. A request
-- is given as the standard library reads it: the media type, the decoded JSON body, the parsed
-- form. A response is given before it is encoded.
use torrents.Prelude.{ℕ, String, Bool, Option, none, some, List, [], ◌∷◌, map, ◌==◌, if◌then◌else◌}
use torrents.Go.Errors.{Error, Sentinel, Message, text, quote, message, wrap, is}
use torrents.Go.Exec.{Result, ok, err, Exec}
use torrents.Go.Time.{Time}
use torrents.Service.Defs.{AddOptions, Torrent as ServiceTorrent}

pub record TorrentService (S : Type 0) : Type 0 where
  pub add_magnet : String → AddOptions → Exec S ServiceTorrent
  pub add_file : String → AddOptions → Exec S ServiceTorrent
  pub get : String → Exec S ServiceTorrent
  pub list : Exec S (List ServiceTorrent)
  pub remove : String → Bool → Exec S (Unit {0})
  pub pause : String → Exec S (Unit {0})
  pub resume : String → Exec S (Unit {0})

-- `ErrorResponse`
pub record ErrorResponse : Type 0 where
  pub status : ℕ
  pub text : Message

pub record AddTorrentRequest : Type 0 where
  pub magnet : String
  pub label : String
  pub target_dir : String

pub record Torrent : Type 0 where
  pub info_hash : String
  pub magnet : String
  pub label : String
  pub target_dir : String
  pub paused : Bool
  pub created_at : Time
  pub updated_at : Time
  pub name : String
  pub length : ℕ
  pub bytes_completed : ℕ
  pub active_peers : ℕ
  pub seeders : ℕ

-- The value that is encoded as the body of a response.
pub data Body : Type 0 where
  error_response : ErrorResponse → Body
  add_torrent_response : Torrent → Body
  list_torrents_response : List Torrent → Body
  get_torrent_response : Torrent → Body
  remove_torrent_response pause_torrent_response resume_torrent_response : Body

pub record Response : Type 0 where
  pub status : ℕ
  pub content_type : String
  pub body : Body

-- A parsed multipart form: `FormFile("file")` and the two values.
pub record Form : Type 0 where
  pub file : Option String
  pub label : String
  pub target_dir : String

pub record Request : Type 0 where
  pub media_type : String
  pub json : Result AddTorrentRequest
  pub form : Result Form
  pub hash : String
  pub files : String

abbrev pub write_json : ℕ → Body → Response
write_json status v = record { status = status; content_type = "application/json"; body = v }

abbrev pub write_error : ℕ → Message → Response
write_error status m = write_json status (error_response (record { status = status; text = m }))

-- `decode`: the decoder's error is wrapped, then the value is validated.
unfoldable pub decode : {T : Type 0} → Result T → (T → Option Error) → Result T
decode (err e) validate = err (wrap "failed to decode request" e)
decode (ok t) validate = elim (validate t) [ none ↦ ok t | some e ↦ err e ]

unfoldable pub new_torrent : ServiceTorrent → Torrent
new_torrent t = record {
  info_hash = t.info_hash;
  magnet = t.magnet;
  label = t.label;
  target_dir = t.target_dir;
  paused = t.paused;
  created_at = t.created_at;
  updated_at = t.updated_at;
  name = t.name;
  length = t.length;
  bytes_completed = t.bytes_completed;
  active_peers = t.active_peers;
  seeders = t.seeders;
}

-- `required` is the rule `validation.Required` on a text.
abbrev pub validate : (String → Option Error) → AddTorrentRequest → Option Error
validate required r = required r.magnet

-- The last two cases of every handler's switch: a missing torrent, and any other error.
unfoldable pub write_service_error : String → String → Error → Response
write_service_error hash label e =
    if is e Sentinel.service_torrent_not_found
    then write_error 404 (text "torrent " ∷ quote hash ∷ text " does not exist" ∷ [])
    else write_error 500 (text label ∷ text ": " ∷ message e)

module _ {S : Type 0} (torrents : TorrentService S) (required : String → Option Error) where
  unfoldable pub add_magnet : Request → S → Response × S
  unfolding decode new_torrent
  add_magnet r s = elim (decode r.json (validate required)) [
    | err e ↦ (write_error 400 (message e), s)
    | ok request ↦
        let (added, s') =
          torrents.add_magnet request.magnet
            (record { label = request.label; target_dir = request.target_dir }) s in
        elim added [
          | ok t ↦ (write_json 201 (add_torrent_response (new_torrent t)), s')
          | err e ↦ (
            if is e Sentinel.service_torrent_already_exists
                then write_error 409 (text "torrent already exists" ∷ [])
                else write_error 500 (text "failed to add torrent" ∷ text ": " ∷ message e),
            s',
          )
        ]
  ]

  unfoldable pub add_file : Request → S → Response × S
  unfolding new_torrent
  add_file r s = elim r.form [
    | err e ↦ (write_error 400 (text "failed to parse multipart form: " ∷ message e), s)
    | ok form ↦ elim form.file [
      | none ↦ (write_error 400 (text "missing file part" ∷ []), s)
      | some file ↦
          let (added, s') =
            torrents.add_file file (record { label = form.label; target_dir = form.target_dir })
              s in
          elim added [
            | ok t ↦ (write_json 201 (add_torrent_response (new_torrent t)), s')
            | err e ↦ (
              if is e Sentinel.service_invalid_torrent_file
                  then write_error 400 (text "invalid torrent file" ∷ [])
                  else if is e Sentinel.service_torrent_already_exists
                  then write_error 409 (text "torrent already exists" ∷ [])
                  else write_error 500 (text "failed to add torrent" ∷ text ": " ∷ message e),
              s',
            )
          ]
    ]
  ]

  unfoldable pub add : Request → S → Response × S
  unfolding add_magnet add_file
  add r s =
      if r.media_type == "multipart/form-data"
      then add_file r s
      else if r.media_type == ""
      then add_magnet r s
      else if r.media_type == "application/json"
      then add_magnet r s
      else (write_error 415 (text "unsupported content type " ∷ quote r.media_type ∷ []), s)

  unfoldable pub list : Request → S → Response × S
  unfolding new_torrent
  list r s =
      let (found, s') = torrents.list s in
      elim found [
        | ok ts ↦ (write_json 200 (list_torrents_response (map new_torrent ts)), s')
        | err e ↦ (write_error 500 (text "failed to list torrents" ∷ text ": " ∷ message e), s')
      ]

  unfoldable pub get : Request → S → Response × S
  unfolding new_torrent write_service_error
  get r s =
      let (found, s') = torrents.get r.hash s in
      elim found [
        | ok t ↦ (write_json 200 (get_torrent_response (new_torrent t)), s')
        | err e ↦ (write_service_error r.hash "failed to load torrent" e, s')
      ]

  unfoldable pub remove : Request → S → Response × S
  unfolding write_service_error
  remove r s =
      let delete_files = r.files == "true" in
      let (done, s') = torrents.remove r.hash delete_files s in
      elim done [
        | ok _ ↦ (write_json 200 remove_torrent_response, s')
        | err e ↦ (write_service_error r.hash "failed to remove torrent" e, s')
      ]

  unfoldable pub pause : Request → S → Response × S
  unfolding write_service_error
  pause r s =
      let (done, s') = torrents.pause r.hash s in
      elim done [
        | ok _ ↦ (write_json 200 pause_torrent_response, s')
        | err e ↦ (write_service_error r.hash "failed to pause torrent" e, s')
      ]

  unfoldable pub resume : Request → S → Response × S
  unfolding write_service_error
  resume r s =
      let (done, s') = torrents.resume r.hash s in
      elim done [
        | ok _ ↦ (write_json 200 resume_torrent_response, s')
        | err e ↦ (write_service_error r.hash "failed to resume torrent" e, s')
      ]
