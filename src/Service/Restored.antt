-- ===== src/Service/Restored.antt =====
-- `Restore` as a whole, under a scheduler, keeps what the calls below the service keep.
use torrents.Prelude.{ℕ, zero, suc, Option, [], ◌∷◌, ◌==◌, inl, inr, Bool-cases}
use torrents.Go.Errors.{Error}
use torrents.Go.Exec.{Exec, or_else, raise, Result-cases}
use torrents.Service.Defs.{TorrentEngine, TorrentRepository, PieceRepository}
use torrents.Service.Restore.{
  Job, restoring, capturing, recording, returning, ended, Group, advance, advance_nth, start, wait,
}
use torrents.Service.Fairness.{Schedule, run_schedule}
use torrents.Service.Invariant.{Preserves, IsKept, or_else_keeps}

module _ {S : Type 0} (engine : TorrentEngine S) (torrents : TorrentRepository S)
    (ctx_err : S → Option Error) where
  -- `Restore` where the scheduler picks the goroutines in the given order and `Wait` returns after
  -- them.
  unfoldable pub restore : Schedule → Exec S (Unit {0})
  restore ns =
      or_else (start engine torrents) raise
        (λ g s. let (g', s') = run_schedule engine torrents ctx_err ns g s in (wait g', s'))

module _ {S : Type 0} (engine : TorrentEngine S) (torrents : TorrentRepository S)
    (pieces : PieceRepository S) (P : S → Type 0) (kept : IsKept engine torrents pieces P)
    (ctx_err : S → Option Error) where
  advance_keeps : (job : Job) (s : S) → P s → P (advance engine torrents job s).1
  unfolding advance
  advance_keeps (restoring m) s p = elim (Result-cases (engine.add_magnet m s).0) [
    | inl (h, x) ↦ rw (x, advance) (kept.add_magnet m s p)
    | inr (e, x) ↦ rw (x, advance) (kept.add_magnet m s p)
  ]
  advance_keeps (capturing h) s p = elim (Result-cases (engine.snapshot h s).0) [
    | inl (progress, x) ↦ elim (Bool-cases (progress.name == "")) [
      | inl empty ↦ rw (x, advance) (rw (empty, advance) (kept.snapshot h s p))
      | inr named ↦ rw (x, advance) (rw (named, advance) (kept.snapshot h s p))
    ]
    | inr (e, x) ↦ rw (x, advance) (kept.snapshot h s p)
  ]
  advance_keeps (recording h name length) s p = kept.set_metadata h name length s p
  advance_keeps returning s p = p
  advance_keeps ended s p = p

  advance_nth_keeps :
      (n : ℕ) (g : Group) (s : S) → P s → P (advance_nth engine torrents ctx_err n g s).1
  unfolding advance_nth
  advance_nth_keeps n ([], e) s p = p
  advance_nth_keeps zero (job ∷ rest, e) s p = advance_keeps job s p
  advance_nth_keeps (suc n) (job ∷ rest, e) s p = advance_nth_keeps n (rest, e) s p

  run_schedule_keeps :
      (ns : Schedule) (g : Group) (s : S) → P s → P (run_schedule engine torrents ctx_err ns g s).1
  run_schedule_keeps [] g s p = p
  run_schedule_keeps (n ∷ ns) g s p =
      let (g', s') = advance_nth engine torrents ctx_err n g s in
      run_schedule_keeps ns g' s' (advance_nth_keeps n g s p)

  pub restore_keeps : (ns : Schedule) → Preserves P (restore engine torrents ctx_err ns)
  unfolding restore start
  restore_keeps ns =
      or_else_keeps P (start engine torrents) raise _
        (or_else_keeps P torrents.list _ _ kept.list (λ e s p. p) (λ rows s p. p)) (λ e s p. p)
        (λ g s p. run_schedule_keeps ns g s p)
