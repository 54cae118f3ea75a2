-- ===== src/Service/Fairness.antt =====
-- Every goroutine of `Restore` returns, whatever order the scheduler picks.
use torrents.Prelude.{
  ℕ, zero, suc, ◌+◌, ◌-◌, ◌≤◌, false, ◌≡◌, refl, Option, List, [], ◌∷◌, arith, eqb, if◌then◌else◌,
}
use native.Mathlib.Nat.{le_refl}
use torrents.Go.Errors.{Error}
use torrents.Service.Defs.{TorrentEngine, TorrentRepository}
use torrents.Service.Restore.{
  Job, restoring, capturing, recording, returning, ended, Group, advance, advance_nth,
}
use torrents.Service.Restoring.{remaining}

-- The goroutines that the scheduler picks, one call each.
abbrev pub Schedule : Type 0
Schedule = List ℕ

abbrev pub turns_of : ℕ → Schedule → ℕ
turns_of n [] = 0
turns_of n (m ∷ ms) = (if eqb m n then 1 else 0) + turns_of n ms

-- The n-th goroutine, one that has returned where there is none.
abbrev pub nth_job : ℕ → List Job → Job
nth_job n [] = ended
nth_job zero (job ∷ jobs) = job
nth_job (suc n) (job ∷ jobs) = nth_job n jobs

eqb-zero : (n : ℕ) → eqb zero (suc n) ≡ false
eqb-zero n = ground arith

eqb-suc-zero : (n : ℕ) → eqb (suc n) zero ≡ false
eqb-suc-zero n = ground arith

eqb-suc : (m n : ℕ) → eqb (suc m) (suc n) ≡ eqb m n
eqb-suc m n = ground arith

module _ {S : Type 0} (engine : TorrentEngine S) (torrents : TorrentRepository S)
    (ctx_err : S → Option Error) where
  abbrev pub run_schedule : Schedule → Group → S → Group × S
  run_schedule [] g s = (g, s)
  run_schedule (n ∷ ns) g s =
      let (g', s') = advance_nth engine torrents ctx_err n g s in run_schedule ns g' s'

  advance_le : (job : Job) (s : S) → remaining (advance engine torrents job s).0 ≤ remaining job - 1
  unfolding advance
  advance_le (restoring m) s = ground arith
  advance_le (capturing k) s = ground arith
  advance_le (recording k n l) s = ground arith
  advance_le returning s = ground arith
  advance_le ended s = ground arith

  remaining-advance_nth :
      (m n : ℕ) (g : Group) (s : S)
      → remaining (nth_job n (advance_nth engine torrents ctx_err m g s).0.0)
        ≤ (if eqb m n then remaining (nth_job n g.0) - 1 else remaining (nth_job n g.0))
  unfolding advance_nth
  remaining-advance_nth m n ([], e) s = ground arith
  remaining-advance_nth zero zero (job ∷ rest, e) s = advance_le job s
  remaining-advance_nth zero (suc n) (job ∷ rest, e) s = rw (eqb-zero n) (le_refl _)
  remaining-advance_nth (suc m) zero (job ∷ rest, e) s = rw (eqb-suc-zero m) (le_refl _)
  remaining-advance_nth (suc m) (suc n) (job ∷ rest, e) s =
      rw (eqb-suc m n) (remaining-advance_nth m n (rest, e) s)

  pub remaining-run_schedule :
      (ns : Schedule) (n : ℕ) (g : Group) (s : S)
      → remaining (nth_job n (run_schedule ns g s).0.0) ≤ remaining (nth_job n g.0) - turns_of n ns
  remaining-run_schedule [] n g s = ground arith
  remaining-run_schedule (m ∷ ns) n g s =
      let g' = (advance_nth engine torrents ctx_err m g s).0 in
      let s' = (advance_nth engine torrents ctx_err m g s).1 in
      ground (arith, remaining-advance_nth m n g s, remaining-run_schedule ns n g' s')

  four : (job : Job) → remaining job ≤ 4
  four (restoring m) = ground arith
  four (capturing k) = ground arith
  four (recording k n l) = ground arith
  four returning = ground arith
  four ended = ground arith

  pub none_left : (job : Job) → remaining job ≤ 0 → job ≡ ended
  none_left (restoring m) h = ground arith
  none_left (capturing k) h = ground arith
  none_left (recording k n l) h = ground arith
  none_left returning h = ground arith
  none_left ended h = refl

  -- A goroutine that the scheduler picks at least four times has returned, whatever the others do in
  -- between, and whether its calls succeed or fail.
  pub schedule_ends :
      (ns : Schedule) (n : ℕ) (g : Group) (s : S)
      → 4 ≤ turns_of n ns
      → nth_job n (run_schedule ns g s).0.0 ≡ ended
  schedule_ends ns n g s fair =
      none_left (nth_job n (run_schedule ns g s).0.0)
        (omega (arith, remaining-run_schedule ns n g s, four (nth_job n g.0)))
