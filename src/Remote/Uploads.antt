-- ===== src/Remote/Uploads.antt =====
-- The client's uploads and listings over a transport that ends at the server's handlers.
use torrents.Prelude.{
  String, ◌≡◌, refl, sym, ap, Option, List, [], ◌∷◌, map, arith, ◌==◌, eq_iff, Bool-cases,
  if◌then◌else◌, inl, inr,
}
use torrents.Go.Errors.{Error, Sentinel, is, response, text, message}
use torrents.Service.Defs as Service
use torrents.Go.Exec.{Result, ok, err, Result-cases}
use torrents.Api.Defs as Api
use torrents.Api.Defs.{Response, TorrentService, new_torrent}
use torrents.Remote.Defs.{
  Torrent, Codec, Call, from_api, do_body, decode_response, add_file, list, field,
}
use torrents.Remote.Server.{serve, value}
use torrents.Remote.Carries.{IsFaithful}

pub value-field : (v : String) → value (field v) ≡ v
value-field v = elim (Bool-cases (v == "")) [
  | inl e ↦ rw e (sym ((eq_iff v "").0 e))
  | inr e ↦ rw e refl
]

map-from_api :
    (ts : List Service.Torrent)
    → map from_api (map new_torrent ts) ≡ map (λ t. from_api (new_torrent t)) ts
map-from_api [] = refl
map-from_api (t ∷ ts) = ap (λ us. from_api (new_torrent t) ∷ us) (map-from_api ts)

-- What the service says to an uploaded file, as a caller of the client sees it.
abbrev pub uploaded : Result Service.Torrent → Result Torrent
uploaded (ok t) = ok (from_api (new_torrent t))
uploaded (err e) = err (
    if is e Sentinel.service_invalid_torrent_file
    then response 400 (text "invalid torrent file" ∷ [])
    else if is e Sentinel.service_torrent_already_exists
    then response 409 (text "torrent already exists" ∷ [])
    else response 500 (text "failed to add torrent" ∷ text ": " ∷ message e))

-- What the service says to a listing, as a caller of the client sees it.
abbrev pub listing : Result (List Service.Torrent) → Result (List Torrent)
listing (ok ts) = ok (map (λ t. from_api (new_torrent t)) ts)
listing (err e) = err (response 500 (text "failed to list torrents" ∷ text ": " ∷ message e))

module _ {S : Type 0} (torrents : TorrentService S) (required : String → Option Error)
    (unrouted : Call → Response) (codec : Codec) where
  pub add_file_carries :
      (file label target_dir : String) (s : S)
      → IsFaithful codec
      → add_file (serve torrents required unrouted) codec (ok file) label target_dir s
        ≡ let (res, s') =
            torrents.add_file file (record { label = label; target_dir = target_dir }) s in
          (uploaded res, s')
  unfolding add_file do_body serve Api.add Api.add_file decode_response
  add_file_carries file label target_dir s faithful =
      elim (Result-cases
        (torrents.add_file file (record { label = label; target_dir = target_dir }) s).0) [
          | inl (t, x) ↦
              ground (
                arith,
                x,
                value-field label,
                value-field target_dir,
                faithful.added (new_torrent t),
              )
          | inr (e, x) ↦ ground (arith, x, value-field label, value-field target_dir)
        ]

  pub list_carries :
      (s : S)
      → IsFaithful codec
      → list (serve torrents required unrouted) codec s
        ≡ let (res, s') = torrents.list s in (listing res, s')
  unfolding list do_body serve Api.list decode_response
  list_carries s faithful = elim (Result-cases (torrents.list s).0) [
    | inl (ts, x) ↦ ground (arith, x, faithful.listed (map new_torrent ts), map-from_api ts)
    | inr (e, x) ↦ ground (arith, x)
  ]
