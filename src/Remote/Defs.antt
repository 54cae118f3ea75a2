-- ===== src/Remote/Defs.antt =====
-- pkg/client/client.go and torrent.go: the client of the HTTP API. A call is given by its method,
-- the endpoint below the base address with the query split off, and its body before it is encoded;
-- the transport takes it to a response whose body is decoded, or fails.
use torrents.Prelude.{
  ℕ, String, Bool, false, ◌&&◌, Option, none, some, List, [], ◌∷◌, map, ◌==◌, eqb, leb,
  if◌then◌else◌,
}
use torrents.Go.Errors.{
  Error, response, wrap, annotate, wrap_quoted, sentinel, no_rows, sqlite, plain, plain_quoted,
}
use torrents.Go.Exec.{Result, ok, err, Exec, or_else, pure, raise}
use torrents.Go.Time.{Time}
use torrents.Engine.Path.{FilePath, join}
use torrents.Api.Defs.{AddTorrentRequest, Torrent as ApiTorrent, Response, Body, error_response}

pub record Torrent : Type 0 where
  pub info_hash : String
  pub magnet : String
  pub label : String
  pub target_dir : String
  pub paused : Bool
  pub created_at : Time
  pub updated_at : Time
  pub name : String
  pub length : ℕ
  pub bytes_completed : ℕ
  pub active_peers : ℕ
  pub seeders : ℕ

unfoldable pub from_api : ApiTorrent → Torrent
from_api t = record {
  info_hash = t.info_hash;
  magnet = t.magnet;
  label = t.label;
  target_dir = t.target_dir;
  paused = t.paused;
  created_at = t.created_at;
  updated_at = t.updated_at;
  name = t.name;
  length = t.length;
  bytes_completed = t.bytes_completed;
  active_peers = t.active_peers;
  seeders = t.seeders;
}

-- The multipart body: the file, and the two fields where they are not empty.
pub record Upload : Type 0 where
  pub file : String
  pub label : Option String
  pub target_dir : Option String

pub data Payload : Type 0 where
  no_body : Payload
  json : AddTorrentRequest → Payload
  multipart : Upload → Payload

pub data Method : Type 0 where
  get_method post_method delete_method : Method

-- The request that `doBody` sends: the elements of the path below the base address, and the query.
pub record Call : Type 0 where
  pub method : Method
  pub path : List String
  pub query : String
  pub payload : Payload

-- `c.http.Do(req)`: the server's response or an error of the transport.
abbrev pub Transport : Type 0 → Type 0
Transport S = Call → Exec S Response

abbrev pub is_success : ℕ → Bool
is_success status = leb 200 status && leb status 226

-- The error that is made of a response without success: the body's, if it is one, under the status
-- of the response.
abbrev pub api_error : Response → Error
api_error r = elim r.body [ error_response e ↦ response r.status e.text | _ ↦ response r.status [] ]

-- `json.Decoder` on the body of a response, as each of the types that the client asks for.
pub record Codec : Type 0 where
  pub torrent : Body → Result ApiTorrent
  pub torrents : Body → Result (List ApiTorrent)
  pub nothing : Body → Result (Unit {0})

-- The response decoded as what the caller expects.
unfoldable pub decode_response : {R : Type 0} → (Body → Result R) → Response → Result R
decode_response decode r =
    if is_success r.status
    then elim (decode r.body) [ ok v ↦ ok v | err e ↦ err (wrap "failed to decode response" e) ]
    else err (api_error r)

-- `errors.As` to an `api.ErrorResponse`, and its status.
abbrev pub response_status : Error → Option ℕ
response_status (response status m) = some status
response_status (wrap label e) = response_status e
response_status (wrap_quoted label v e) = response_status e
response_status (annotate e cause) = response_status e
response_status (sentinel s) = none
response_status no_rows = none
response_status (sqlite code) = none
response_status (plain t) = none
response_status (plain_quoted label v) = none

abbrev pub has_status : ℕ → Error → Bool
has_status status e = elim (response_status e) [ none ↦ false | some n ↦ eqb n status ]

abbrev pub is_not_found : Error → Bool
is_not_found = has_status 404

abbrev pub is_conflict : Error → Bool
is_conflict = has_status 409

abbrev pub is_bad_request : Error → Bool
is_bad_request = has_status 400

abbrev pub base : FilePath
base = "api" ∷ "v1" ∷ "torrents" ∷ []

-- A field that is written only where it is not empty.
abbrev pub field : String → Option String
field v = if v == "" then none else some v

-- `buildAddFileBody` on what reading the file gives, with writes into memory, which do not fail.
abbrev pub build_add_file_body : Result String → String → String → Result Upload
build_add_file_body (err e) label target_dir = err (wrap "failed to read torrent file" e)
build_add_file_body (ok file) label target_dir =
    ok (record { file = file; label = field label; target_dir = field target_dir })

module _ {S : Type 0} (send : Transport S) (codec : Codec) where
  unfoldable pub do_body : {R : Type 0} → Call → (Body → Result R) → Exec S R
  unfolding decode_response
  do_body call decode =
      or_else (send call) (λ e. raise (wrap "failed to send request" e))
        (λ r s. (decode_response decode r, s))

  -- A call without a body on the path of a hash, whose endpoint is cut at no `?` of the hash.
  abbrev pub on_path : Method → FilePath → String → Call
  on_path method path query = record {
    method = method;
    path = path;
    query = query;
    payload = no_body;
  }

  unfoldable pub add_magnet : String → String → String → Exec S Torrent
  unfolding do_body from_api
  add_magnet magnet label target_dir =
      or_else
        (do_body
          (record {
            method = Method.post_method;
            path = base;
            query = "";
            payload = json (record { magnet = magnet; label = label; target_dir = target_dir });
          })
          codec.torrent)
        raise (λ t. pure (from_api t))

  unfoldable pub add_file : Result String → String → String → Exec S Torrent
  unfolding do_body from_api
  add_file file label target_dir = elim (build_add_file_body file label target_dir) [
    | err e ↦ raise e
    | ok body ↦
        or_else
          (do_body
            (record {
              method = Method.post_method;
              path = base;
              query = "";
              payload = multipart body;
            })
            codec.torrent)
          raise (λ t. pure (from_api t))
  ]

  unfoldable pub list : Exec S (List Torrent)
  unfolding do_body from_api
  list =
      or_else (do_body (on_path Method.get_method base "") codec.torrents) raise
        (λ ts. pure (map from_api ts))

  unfoldable pub get : String → Exec S Torrent
  unfolding do_body from_api
  get hash =
      or_else (do_body (on_path Method.get_method (join base hash) "") codec.torrent) raise
        (λ t. pure (from_api t))

  unfoldable pub remove : String → Bool → Exec S (Unit {0})
  unfolding do_body
  remove hash delete_files =
      do_body
        (on_path Method.delete_method (join base hash) (if delete_files then "files=true" else ""))
        codec.nothing

  unfoldable pub pause : String → Exec S (Unit {0})
  unfolding do_body
  pause hash = do_body (on_path Method.post_method (join (join base hash) "pause") "") codec.nothing

  unfoldable pub resume : String → Exec S (Unit {0})
  unfolding do_body
  resume hash =
      do_body (on_path Method.post_method (join (join base hash) "resume") "") codec.nothing
