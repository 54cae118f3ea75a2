-- ===== src/Engine/Adding.antt =====
-- `Engine.AddMagnet` and `Engine.AddFile`: a torrent that was added to the client and does not get
-- as far as its download is dropped again.
use torrents.Prelude.{String, ◌≡◌, refl, none, inl, inr}
use torrents.Go.Exec.{Result, ok, err, Result-cases}
use torrents.Database.Defs.{Env}
use torrents.Engine.Path.{FilePath}
use torrents.Engine.Defs.{World, Client, start, add_magnet, add_file}

-- Dropping a torrent ends its tracking.
abbrev pub DropForgets : {C T M : Type 0} → Client (World C) T M → Type 0
DropForgets {C} {T} client =
    (t : T) (w : World C) → client.torrent (client.info_hash t) (client.drop t w) ≡ none

-- What a call may leave behind for the torrent `t`: its hash and the download started in the state
-- in which verification ended, or an error and no trace of the torrent.
abbrev pub Started :
    {C T M : Type 0} → Env → Client (World C) T M → T → Result String × World C → Type 0
Started {C} env client t (ok hash, w) =
    (hash ≡ env.hex_string (client.info_hash t)) × ((v : World C) × (w ≡ client.download_all t v))
Started env client t (err e, w) = client.torrent (client.info_hash t) w ≡ none

module _ {C T M : Type 0} (env : Env) (client : Client (World C) T M) (data_dir : FilePath) where
  start-Started :
      (t : T) (w : World C)
      → DropForgets client
      → Started env client t (start env client data_dir t w)
  unfolding start
  start-Started t w d = elim (Result-cases (client.got_info t w).0) [
    | inr (e, h) ↦ rw (h, start) (d t (client.got_info t w).1)
    | inl (_, h) ↦ elim (Result-cases (client.verify_data t (client.got_info t w).1).0) [
      | inr (e, k) ↦
          rw (h, start) (rw (k, start) (d t (client.verify_data t (client.got_info t w).1).1))
      | inl (_, k) ↦
          rw (h, start)
            (rw (k, start) (refl, ((client.verify_data t (client.got_info t w).1).1, refl)))
    ]
  ]

  -- Where dropping a torrent ends its tracking: once the client has accepted a magnet URI, the call
  -- returns the torrent's hash with its download started, or it fails and the client no longer
  -- tracks the torrent, even if it did before the call.
  pub add_magnet-Started :
      (uri : String) (w w' : World C) (t : T)
      → client.add_magnet uri w ≡ (ok t, w')
      → DropForgets client
      → Started env client t (add_magnet env client data_dir uri w)
  unfolding add_magnet
  add_magnet-Started uri w w' t e d = rw (e, add_magnet) (start-Started t w' d)

  -- Where dropping a torrent ends its tracking: for a `.torrent` file that parses and that the client
  -- accepts, the call returns the torrent's hash with its download started, or it fails and the
  -- client no longer tracks the torrent, even if it did before the call.
  pub add_file-Started :
      (contents : String) (mi : M) (w w' : World C) (t : T)
      → client.load_metainfo contents ≡ ok mi
      → client.add_torrent mi w ≡ (ok t, w')
      → DropForgets client
      → Started env client t (add_file env client data_dir contents w)
  unfolding add_file
  add_file-Started contents mi w w' t l e d =
      rw (l, add_file) (rw (e, add_file) (start-Started t w' d))
