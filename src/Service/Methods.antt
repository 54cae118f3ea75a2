-- ===== src/Service/Methods.antt =====
-- The methods of `TorrentService` over any engine and any repository.
use torrents.Prelude.{String, true, false, ◌≡◌, refl, arith}
use torrents.Go.Errors.{Error, Sentinel, wrap, is}
use torrents.Go.Exec.{ok, err}
use torrents.Database.Defs.{Torrent as DbTorrent}
use torrents.Service.Defs.{
  TorrentEngine, TorrentRepository, PieceRepository, load_error, persist_metadata, resume,
  err_torrent_not_found,
}

-- An error of a repository reaches the caller as the service's own not-found error exactly when it
-- is the repository's.
pub is-load_error :
    (label : String) (e : Error)
    → is e Sentinel.service_torrent_not_found ≡ false
    → is (load_error label e) Sentinel.service_torrent_not_found
      ≡ is e Sentinel.db_torrent_not_found
unfolding load_error
is-load_error label e h = ground arith

module _ {S : Type 0} (engine : TorrentEngine S) (torrents : TorrentRepository S)
    (pieces : PieceRepository S) where
  -- A resume that the engine refuses has flipped the flag and flipped it back.
  pub resume_rolls_back :
      (h : String) (row : DbTorrent) (s s1 s2 s3 : S) (e : Error)
      → torrents.get h s ≡ (ok row, s1)
      → torrents.set_paused h false s1 ≡ (ok tt, s2)
      → engine.add_magnet row.magnet s2 ≡ (err e, s3)
      → resume engine torrents pieces h s
        ≡ (err (wrap "failed to re-add torrent to engine" e), (torrents.set_paused h true s3).1)
  unfolding resume
  resume_rolls_back h row s s1 s2 s3 e a b c = rw (a, resume) (rw (b, resume) (rw (c, resume) refl))

  pub resume_takes_back :
      (h k : String) (row : DbTorrent) (s s1 s2 s3 : S)
      → torrents.get h s ≡ (ok row, s1)
      → torrents.set_paused h false s1 ≡ (ok tt, s2)
      → engine.add_magnet row.magnet s2 ≡ (ok k, s3)
      → resume engine torrents pieces h s ≡ (ok tt, persist_metadata engine torrents pieces k s3)
  unfolding resume
  resume_takes_back h k row s s1 s2 s3 a b c = rw (a, resume) (rw (b, resume) (rw (c, resume) refl))

  pub resume_missing :
      (h : String) (s s1 : S) (e : Error)
      → torrents.get h s ≡ (err e, s1)
      → is e Sentinel.db_torrent_not_found ≡ true
      → resume engine torrents pieces h s ≡ (err err_torrent_not_found, s1)
  unfolding resume load_error
  resume_missing h s s1 e a b = ground (arith, a, b)
