-- ===== src/Ui/Complete.antt =====
-- Whether a torrent is complete: what its page says, and what the service goes by when it removes
-- it.
use torrents.Prelude.{
  ℕ, Bool, ◌&&◌, ◌≡◌, Option, none, some, inl, inr, eqb, ltb, leb, arith, if◌then◌else◌, Bool-cases,
}
use torrents.Go.Exec.{Result, ok, err, Result-cases}
use torrents.Database.Defs.{Torrent as Row}
use torrents.Engine.Defs.{Progress}
use torrents.Service.Defs.{TorrentEngine, TorrentRepository, PieceRepository, hydrate, is_complete}
use torrents.Ui.Labels.{detail_complete}

-- All of a known length is there.
abbrev pub is_full : ℕ → ℕ → Bool
is_full length bytes_completed = ltb 0 length && leb length bytes_completed

-- The bytes that the engine has of a torrent that it tracks, but whose length it does not know yet.
abbrev pub unmeasured : Result Progress → Option ℕ
unmeasured (ok progress) = if eqb progress.length 0 then some progress.bytes_completed else none
unmeasured (err e) = none

-- How what the page says and what the service goes by compare.
abbrev pub Compares : Row → Option ℕ → Bool → Bool → Type 0
Compares row none shown complete = shown ≡ complete
Compares row (some live) shown complete =
    (shown ≡ is_full row.length live) × (complete ≡ is_full row.length row.bytes_completed)

module _ {S : Type 0} (engine : TorrentEngine S) (torrents : TorrentRepository S)
    (pieces : PieceRepository S) where
  -- The page offers to keep a torrent's files exactly when the service would keep them, but where
  -- the engine tracks the torrent without knowing its length yet: there the page goes by the
  -- engine's bytes, the service by the database's, and both by the database's length.
  pub detail_complete-Compares :
      (row : Row) (s : S)
      → Compares row
          (unmeasured (engine.snapshot row.info_hash s).0)
          (detail_complete (hydrate engine torrents pieces row s).0)
          (is_complete engine torrents pieces row s).0
  unfolding hydrate is_complete detail_complete
  detail_complete-Compares row s = elim (Result-cases (engine.snapshot row.info_hash s).0) [
    | inl (progress, x) ↦ elim (Bool-cases (eqb progress.length 0)) [
      | inl zero_length ↦ ground (arith, x, zero_length)
      | inr measured ↦ ground (arith, x, measured)
    ]
    | inr (e, x) ↦ ground (arith, x)
  ]
