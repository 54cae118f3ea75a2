-- ===== src/Remote/Server.antt =====
-- `Register` of internal/server/api/torrent.go: the routes of the API, and a transport that ends at
-- its handlers.
use torrents.Prelude.{String, Option, none, some, List, [], ◌∷◌, ◌==◌, if◌then◌else◌}
use torrents.Go.Errors.{Error, plain}
use torrents.Go.Exec.{Result, ok, err}
use torrents.Api.Defs as Api
use torrents.Api.Defs.{Request, Response, TorrentService, Form, AddTorrentRequest}
use torrents.Remote.Defs.{
  Call, Method, get_method, post_method, delete_method, Payload, no_body, json, multipart,
  Transport,
}

abbrev pub media_type : Payload → String
media_type no_body = ""
media_type (json r) = "application/json"
media_type (multipart u) = "multipart/form-data"

-- What the JSON decoder reads from the body.
abbrev pub json_of : Payload → Result AddTorrentRequest
json_of no_body = err (plain "EOF")
json_of (json r) = ok r
json_of (multipart u) = err (plain "invalid character")

abbrev pub value : Option String → String
value none = ""
value (some v) = v

abbrev pub form_of : Payload → Result Form
form_of no_body = err (plain "request Content-Type isn't multipart/form-data")
form_of (json r) = err (plain "request Content-Type isn't multipart/form-data")
form_of (multipart u) =
    ok (record { file = some u.file; label = value u.label; target_dir = value u.target_dir })

-- The request that a handler sees, with the path value `hash`.
abbrev pub request_of : Call → String → Request
request_of call hash = record {
  media_type = media_type call.payload;
  json = json_of call.payload;
  form = form_of call.payload;
  hash = hash;
  files = if call.query == "files=true" then "true" else "";
}

-- The path below `/api/v1/torrents`.
abbrev pub suffix : List String → Option (List String)
suffix (a ∷ b ∷ c ∷ rest) =
    if a == "api"
    then (if b == "v1" then (if c == "torrents" then some rest else none) else none)
    else none
suffix _ = none

module _ {S : Type 0} (torrents : TorrentService S) (required : String → Option Error) where
  -- The handler of a method on a path below `/api/v1/torrents`, and the path value `hash`.
  abbrev pub route : Method → List String → Option ((Request → S → Response × S) × String)
  route get_method [] = some (Api.list torrents required, "")
  route post_method [] = some (Api.add torrents required, "")
  route get_method (hash ∷ []) = some (Api.get torrents required, hash)
  route delete_method (hash ∷ []) = some (Api.remove torrents required, hash)
  route post_method (hash ∷ action ∷ []) =
      if action == "pause"
      then some (Api.pause torrents required, hash)
      else if action == "resume"
      then some (Api.resume torrents required, hash)
      else none
  route _ _ = none

  -- The server: `unrouted` is the answer of `http.ServeMux` where no route fits.
  unfoldable pub serve : (Call → Response) → Transport S
  serve unrouted call s = elim (suffix call.path) [
    | none ↦ (ok (unrouted call), s)
    | some rest ↦ elim (route call.method rest) [
      | none ↦ (ok (unrouted call), s)
      | some (handler, hash) ↦ let (r, s') = handler (request_of call hash) s in (ok r, s')
    ]
  ]
