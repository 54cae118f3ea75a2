-- ===== src/Remote/Carries.antt =====
-- The client over a transport that ends at the server's handlers: what a caller of the client gets
-- is what the service says.
use torrents.Prelude.{
  String, Bool, true, false, ◌≡◌, refl, Option, none, List, [], ◌∷◌, arith, if◌then◌else◌, inl, inr,
}
use torrents.Go.Errors.{Error, Sentinel, is, response, text, message}
use torrents.Service.Defs as Service
use torrents.Go.Exec.{Result, ok, err, Result-cases}
use torrents.Engine.Path.{join, push_last}
use torrents.Engine.Path.Plain.{IsPlain, join-IsPlain}
use torrents.Api.Defs as Api
use torrents.Api.Defs.{
  Request, Response, TorrentService, new_torrent, write_service_error, Body, add_torrent_response,
  list_torrents_response, get_torrent_response, remove_torrent_response, pause_torrent_response,
  resume_torrent_response, decode, validate,
}
use torrents.Remote.Defs.{
  Torrent, Codec, Call, api_error, from_api, base, get, remove, pause, resume, do_body,
  decode_response, is_not_found, add_magnet,
}
use torrents.Remote.Server.{serve}

-- The decoder reads back what the handlers encode.
pub record IsFaithful (codec : Codec) : Type 0 where
  pub added : (t : Api.Torrent) → codec.torrent (add_torrent_response t) ≡ ok t
  pub got : (t : Api.Torrent) → codec.torrent (get_torrent_response t) ≡ ok t
  pub listed : (ts : List Api.Torrent) → codec.torrents (list_torrents_response ts) ≡ ok ts
  pub removed : codec.nothing remove_torrent_response ≡ ok tt
  pub paused : codec.nothing pause_torrent_response ≡ ok tt
  pub resumed : codec.nothing resume_torrent_response ≡ ok tt

-- The service's answer as a caller of the client sees it: the value, or the error response that the
-- handler makes of the error.
abbrev pub carried : {A B S : Type 0} → String → String → (A → B) → Result A × S → Result B × S
carried hash label f (ok a, s) = (ok (f a), s)
carried hash label f (err e, s) = (err (api_error (write_service_error hash label e)), s)

action-IsPlain : IsPlain "pause" × IsPlain "resume"
action-IsPlain = (
  record {
    no_slash = (refl, (refl, (refl, (refl, (refl, tt)))));
    not_empty = refl;
    not_dot = refl;
    not_dots = refl;
  },
  record {
    no_slash = (refl, (refl, (refl, (refl, (refl, (refl, tt))))));
    not_empty = refl;
    not_dot = refl;
    not_dots = refl;
  },
)

module _ {S : Type 0} (torrents : TorrentService S) (required : String → Option Error)
    (unrouted : Call → Response) (codec : Codec) where
  get_carries :
      (hash : String) (s : S)
      → IsPlain hash
      → IsFaithful codec
      → get (serve torrents required unrouted) codec hash s
        ≡ carried hash "failed to load torrent"
            (λ t. from_api (new_torrent t))
            (torrents.get hash s)
  unfolding get do_body serve Api.get decode_response write_service_error
  get_carries hash s plain faithful = elim (Result-cases (torrents.get hash s).0) [
    | inl (t, x) ↦ ground (arith, join-IsPlain base hash plain, x, faithful.got (new_torrent t))
    | inr (e, x) ↦ ground (arith, join-IsPlain base hash plain, x)
  ]

  remove_carries :
      (hash : String) (delete_files : Bool) (s : S)
      → IsPlain hash
      → IsFaithful codec
      → remove (serve torrents required unrouted) codec hash delete_files s
        ≡ carried hash "failed to remove torrent" (λ t. t) (torrents.remove hash delete_files s)
  unfolding remove do_body serve Api.remove decode_response write_service_error
  remove_carries hash true s plain faithful = elim (Result-cases (torrents.remove hash true s).0) [
    | inl (t, x) ↦ ground (arith, join-IsPlain base hash plain, x, faithful.removed)
    | inr (e, x) ↦ ground (arith, join-IsPlain base hash plain, x)
  ]
  remove_carries hash false s plain faithful =
      elim (Result-cases (torrents.remove hash false s).0) [
        | inl (t, x) ↦ ground (arith, join-IsPlain base hash plain, x, faithful.removed)
        | inr (e, x) ↦ ground (arith, join-IsPlain base hash plain, x)
      ]

  join_action :
      (hash action : String)
      → IsPlain hash
      → IsPlain action
      → join (join base hash) action ≡ "api" ∷ "v1" ∷ "torrents" ∷ hash ∷ action ∷ []
  join_action hash action plain p =
      rw (join-IsPlain base hash plain) (join-IsPlain (push_last base hash) action p)

  pause_carries :
      (hash : String) (s : S)
      → IsPlain hash
      → IsFaithful codec
      → pause (serve torrents required unrouted) codec hash s
        ≡ carried hash "failed to pause torrent" (λ t. t) (torrents.pause hash s)
  unfolding pause do_body serve Api.pause decode_response write_service_error
  pause_carries hash s plain faithful = elim (Result-cases (torrents.pause hash s).0) [
    | inl (t, x) ↦
        ground (arith, join_action hash "pause" plain action-IsPlain.0, x, faithful.paused)
    | inr (e, x) ↦ ground (arith, join_action hash "pause" plain action-IsPlain.0, x)
  ]

  resume_carries :
      (hash : String) (s : S)
      → IsPlain hash
      → IsFaithful codec
      → resume (serve torrents required unrouted) codec hash s
        ≡ carried hash "failed to resume torrent" (λ t. t) (torrents.resume hash s)
  unfolding resume do_body serve Api.resume decode_response write_service_error
  resume_carries hash s plain faithful = elim (Result-cases (torrents.resume hash s).0) [
    | inl (t, x) ↦
        ground (arith, join_action hash "resume" plain action-IsPlain.1, x, faithful.resumed)
    | inr (e, x) ↦ ground (arith, join_action hash "resume" plain action-IsPlain.1, x)
  ]

  -- For a hash that is one path element and a decoder that reads back what the handlers encode, the
  -- client's calls about one torrent reach the service's methods of the same name with the same
  -- arguments, and return the service's value, or its error as an error response.
  pub client_carries :
      (hash : String) (delete_files : Bool) (s : S)
      → IsPlain hash
      → IsFaithful codec
      → let send = serve torrents required unrouted in
        (get send codec hash s
          ≡ carried hash "failed to load torrent"
              (λ t. from_api (new_torrent t))
              (torrents.get hash s))
        × (remove send codec hash delete_files s
            ≡ carried hash "failed to remove torrent"
                (λ t. t)
                (torrents.remove hash delete_files s))
        × (pause send codec hash s
            ≡ carried hash "failed to pause torrent" (λ t. t) (torrents.pause hash s))
        × (resume send codec hash s
            ≡ carried hash "failed to resume torrent" (λ t. t) (torrents.resume hash s))
  client_carries hash delete_files s plain faithful = (
    get_carries hash s plain faithful,
    remove_carries hash delete_files s plain faithful,
    pause_carries hash s plain faithful,
    resume_carries hash s plain faithful,
  )

  error_not_found :
      (hash label : String) (e : Error)
      → is_not_found (api_error (write_service_error hash label e))
        ≡ is e Sentinel.service_torrent_not_found
  unfolding write_service_error
  error_not_found hash label e = ground arith

  -- For a hash that is one path element and a decoder that reads back what the handlers encode,
  -- `IsNotFound` holds of the error of the client's `Get` exactly when the service reported that the
  -- torrent does not exist.
  pub is_not_found-get :
      (hash : String) (s : S)
      → IsPlain hash
      → IsFaithful codec
      → elim (get (serve torrents required unrouted) codec hash s).0 [
        | ok t ↦ false
        | err e ↦ is_not_found e
      ]
        ≡ elim (torrents.get hash s).0 [
          | ok t ↦ false
          | err e ↦ is e Sentinel.service_torrent_not_found
        ]
  is_not_found-get hash s plain faithful = elim (Result-cases (torrents.get hash s).0) [
    | inl (t, x) ↦ rw (get_carries hash s plain faithful) (ground (arith, x))
    | inr (e, x) ↦
        rw (get_carries hash s plain faithful)
          (ground (arith, x, error_not_found hash "failed to load torrent" e))
  ]

  -- What the service says to an added torrent, as a caller of the client sees it.
  abbrev pub added : Result Service.Torrent → Result Torrent
  added (ok t) = ok (from_api (new_torrent t))
  added (err e) = err (
      if is e Sentinel.service_torrent_already_exists
      then response 409 (text "torrent already exists" ∷ [])
      else response 500 (text "failed to add torrent" ∷ text ": " ∷ message e))

  -- With a decoder that reads back what the handlers encode, a magnet URI that passes validation
  -- reaches the service with its label and directory, and the client returns the added torrent, 409
  -- where the torrent is already managed, or 500.
  pub add_magnet_carries :
      (magnet label target_dir : String) (s : S)
      → required magnet ≡ none
      → IsFaithful codec
      → add_magnet (serve torrents required unrouted) codec magnet label target_dir s
        ≡ let (res, s') =
            torrents.add_magnet magnet (record { label = label; target_dir = target_dir }) s in
          (added res, s')
  unfolding add_magnet do_body serve Api.add Api.add_magnet decode_response decode
  add_magnet_carries magnet label target_dir s valid faithful =
      elim (Result-cases
        (torrents.add_magnet magnet (record { label = label; target_dir = target_dir }) s).0) [
          | inl (t, x) ↦ ground (arith, x, valid, faithful.added (new_torrent t))
          | inr (e, x) ↦ ground (arith, x, valid)
        ]
