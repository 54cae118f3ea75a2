-- ===== src/Api/Status.antt =====
-- The status and the body of the responses of the handlers in internal/server/api/torrent.go.
use torrents.Prelude.{ℕ, String, ◌≡◌, Option, ◌==◌, arith, ◌≤◌, if◌then◌else◌}
use torrents.Go.Errors.{Error, Sentinel, is}
use torrents.Go.Exec.{Result, ok, err}
use torrents.Api.Defs.{
  TorrentService, Response, Request, error_response, add_torrent_response, list_torrents_response,
  get_torrent_response, remove_torrent_response, pause_torrent_response, resume_torrent_response,
  write_service_error, add, add_magnet, add_file, list, get, remove, pause, resume,
}

-- The status that a result of the service stands for.
abbrev pub status_of : {A : Type 0} → Result A → ℕ
status_of (ok a) = 200
status_of (err e) = if is e Sentinel.service_torrent_not_found then 404 else 500

-- An error body carries the response's own status, which is an error status; any other body goes
-- with a status of success.
abbrev pub IsConsistent : Response → Type 0
IsConsistent r = elim r.body [
  | error_response e ↦ (e.status ≡ r.status) × (400 ≤ r.status)
  | add_torrent_response t ↦ r.status ≡ 201
  | list_torrents_response ts ↦ r.status ≡ 200
  | get_torrent_response t ↦ r.status ≡ 200
  | remove_torrent_response ↦ r.status ≡ 200
  | pause_torrent_response ↦ r.status ≡ 200
  | resume_torrent_response ↦ r.status ≡ 200
]

module _ {S : Type 0} (torrents : TorrentService S) (required : String → Option Error) where
  get_status :
      (r : Request) (s : S)
      → (get torrents required r s).0.status ≡ status_of (torrents.get r.hash s).0
  unfolding get write_service_error
  get_status r s = ground arith

  remove_status :
      (r : Request) (s : S)
      → (remove torrents required r s).0.status
        ≡ status_of (torrents.remove r.hash (r.files == "true") s).0
  unfolding remove write_service_error
  remove_status r s = ground arith

  pause_status :
      (r : Request) (s : S)
      → (pause torrents required r s).0.status ≡ status_of (torrents.pause r.hash s).0
  unfolding pause write_service_error
  pause_status r s = ground arith

  resume_status :
      (r : Request) (s : S)
      → (resume torrents required r s).0.status ≡ status_of (torrents.resume r.hash s).0
  unfolding resume write_service_error
  resume_status r s = ground arith

  -- The handlers that act on one torrent answer 200 when the service succeeds, 404 when it reports
  -- that the torrent does not exist, and 500 on any other error.
  pub status_lem :
      (r : Request) (s : S)
      → ((get torrents required r s).0.status ≡ status_of (torrents.get r.hash s).0)
        × ((remove torrents required r s).0.status
            ≡ status_of (torrents.remove r.hash (r.files == "true") s).0)
        × ((pause torrents required r s).0.status ≡ status_of (torrents.pause r.hash s).0)
        × ((resume torrents required r s).0.status ≡ status_of (torrents.resume r.hash s).0)
  status_lem r s = (get_status r s, remove_status r s, pause_status r s, resume_status r s)

  service_error-IsConsistent :
      (hash label : String) (e : Error) → IsConsistent (write_service_error hash label e)
  unfolding write_service_error
  service_error-IsConsistent hash label e = ground arith

  add_magnet-IsConsistent :
      (r : Request) (s : S) → IsConsistent (add_magnet torrents required r s).0
  unfolding add_magnet
  add_magnet-IsConsistent r s = ground arith

  add_file-IsConsistent : (r : Request) (s : S) → IsConsistent (add_file torrents required r s).0
  unfolding add_file
  add_file-IsConsistent r s = ground arith

  add-IsConsistent : (r : Request) (s : S) → IsConsistent (add torrents required r s).0
  unfolding add
  add-IsConsistent r s = ground (arith, add_magnet-IsConsistent r s, add_file-IsConsistent r s)

  list-IsConsistent : (r : Request) (s : S) → IsConsistent (list torrents required r s).0
  unfolding list
  list-IsConsistent r s = ground arith

  get-IsConsistent : (r : Request) (s : S) → IsConsistent (get torrents required r s).0
  unfolding get
  get-IsConsistent r s = ground (arith, service_error-IsConsistent r.hash "failed to load torrent")

  -- Each response of each handler is consistent: an error body goes with an error status, which the
  -- body repeats, and every other body with 200, or with 201 for an added torrent.
  pub response-IsConsistent :
      (r : Request) (s : S)
      → IsConsistent (add torrents required r s).0
        × IsConsistent (list torrents required r s).0
        × IsConsistent (get torrents required r s).0
        × IsConsistent (remove torrents required r s).0
        × IsConsistent (pause torrents required r s).0
        × IsConsistent (resume torrents required r s).0
  unfolding remove pause resume
  response-IsConsistent r s = (
    add-IsConsistent r s,
    list-IsConsistent r s,
    get-IsConsistent r s,
    ground (arith, service_error-IsConsistent r.hash "failed to remove torrent"),
    ground (arith, service_error-IsConsistent r.hash "failed to pause torrent"),
    ground (arith, service_error-IsConsistent r.hash "failed to resume torrent"),
  )
