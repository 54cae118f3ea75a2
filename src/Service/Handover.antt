-- ===== src/Service/Handover.antt =====
-- `Restore` hands each torrent that is not paused to the engine once, and no other.
use mathlib.Core.List.{Perm, perm_middle, append-nil}
use mathlib.Core.List.Perm
use mathlib.Core.Path.{subst}
use torrents.Prelude.{
  ℕ, zero, suc, ◌≤◌, ◌<◌, String, not, ◌≡◌, refl, ap, ◌∙◌, Option, none, inl, inr, List, [], ◌∷◌,
  ◌++◌, map, keep, arith, leb, ◌==◌, Bool-cases,
}
use torrents.Go.Errors.{Error}
use torrents.Go.Exec.{ok, Exec, Result-cases}
use torrents.Database.Defs.{Torrent}
use torrents.Service.Defs.{TorrentEngine, TorrentRepository}
use torrents.Service.Restore.{
  Job, restoring, capturing, recording, returning, ended, Group, advance, advance_nth, start,
}
use torrents.Service.Fairness.{
  Schedule, turns_of, nth_job, run_schedule, schedule_ends, remaining-run_schedule, none_left,
}

-- A state with the magnets that the engine was handed, the last first.
abbrev pub beside : {S A : Type 0} → Exec S A → Exec (S × List String) A
beside m q = let (r, s) = m q.0 in (r, (s, q.1))

abbrev pub logged : {S : Type 0} → TorrentEngine S → TorrentEngine (S × List String)
logged engine = record {
  add_magnet = λ magnet q. let (r, s) = engine.add_magnet magnet q.0 in (r, (s, magnet ∷ q.1));
  add_file = λ file. beside (engine.add_file file);
  remove = λ h d. beside (engine.remove h d);
  snapshot = λ h. beside (engine.snapshot h);
  files = λ h. beside (engine.files h);
}

abbrev pub unlogged : {S : Type 0} → TorrentRepository S → TorrentRepository (S × List String)
unlogged torrents = record {
  create = λ t. beside (torrents.create t);
  get = λ h. beside (torrents.get h);
  list = beside torrents.list;
  delete = λ h. beside (torrents.delete h);
  set_metadata = λ h name length. beside (torrents.set_metadata h name length);
  set_bytes_completed = λ h n. beside (torrents.set_bytes_completed h n);
  set_paused = λ h paused. beside (torrents.set_paused h paused);
}

-- The magnets that are still to be handed over.
abbrev pub waiting : List Job → List String
waiting [] = []
waiting (restoring m ∷ jobs) = m ∷ waiting jobs
waiting (capturing h ∷ jobs) = waiting jobs
waiting (recording h name length ∷ jobs) = waiting jobs
waiting (returning ∷ jobs) = waiting jobs
waiting (ended ∷ jobs) = waiting jobs

-- The torrents that are to be restored.
abbrev pub unpaused : List Torrent → List Torrent
unpaused rows = keep (λ row. not row.paused) rows

abbrev pub restored_group : List Torrent → Group
restored_group rows = (map (λ row. restoring row.magnet) (unpaused rows), none)

-- The goroutines up to the k-th have four turns each.
abbrev pub IsFair : Schedule → ℕ → Type 0
IsFair ns k = (n : ℕ) → n < k → 4 ≤ turns_of n ns

abbrev pub count_jobs : List Job → ℕ
count_jobs [] = 0
count_jobs (job ∷ jobs) = suc (count_jobs jobs)

hands_over :
    (ws xs ys zs : List String) → ws ≡ [] → ys ≡ zs → Perm (ws ++ xs) (ys ++ []) → Perm xs zs
hands_over ws xs ys zs e f p =
    subst (λ us. Perm xs us) (append-nil ys ∙ f) (subst (λ us. Perm (us ++ xs) (ys ++ [])) e p)

module _ {S : Type 0} (engine : TorrentEngine S) (torrents : TorrentRepository S)
    (ctx_err : S × List String → Option Error) where
  advance_hands :
      (job : Job) (jobs : List Job) (q : S × List String)
      → let (job', q') = advance (logged engine) (unlogged torrents) job q in
        Perm (waiting (job' ∷ jobs) ++ q'.1) (waiting (job ∷ jobs) ++ q.1)
  unfolding advance
  advance_hands (restoring m) jobs q = elim (Result-cases (engine.add_magnet m q.0).0) [
    | inl (h, x) ↦ rw (x, advance) (perm_middle (waiting jobs) q.1)
    | inr (e, x) ↦ rw (x, advance) (perm_middle (waiting jobs) q.1)
  ]
  advance_hands (capturing h) jobs q = elim (Result-cases (engine.snapshot h q.0).0) [
    | inl (progress, x) ↦ elim (Bool-cases (progress.name == "")) [
      | inl empty ↦ rw (x, advance) (rw (empty, advance) (Perm.refl _))
      | inr named ↦ rw (x, advance) (rw (named, advance) (Perm.refl _))
    ]
    | inr (e, x) ↦ rw (x, advance) (Perm.refl _)
  ]
  advance_hands (recording h name length) jobs q = Perm.refl _
  advance_hands returning jobs q = Perm.refl _
  advance_hands ended jobs q = Perm.refl _

  advance_nth_hands :
      (n : ℕ) (g : Group) (q : S × List String)
      → let (g', q') = advance_nth (logged engine) (unlogged torrents) ctx_err n g q in
        Perm (waiting g'.0 ++ q'.1) (waiting g.0 ++ q.1)
  unfolding advance_nth
  advance_nth_hands n ([], e) q = Perm.refl _
  advance_nth_hands zero (job ∷ rest, e) q = advance_hands job rest q
  advance_nth_hands (suc n) (restoring m ∷ rest, e) q =
      Perm.cons m (advance_nth_hands n (rest, e) q)
  advance_nth_hands (suc n) (capturing h ∷ rest, e) q = advance_nth_hands n (rest, e) q
  advance_nth_hands (suc n) (recording h name l ∷ rest, e) q = advance_nth_hands n (rest, e) q
  advance_nth_hands (suc n) (returning ∷ rest, e) q = advance_nth_hands n (rest, e) q
  advance_nth_hands (suc n) (ended ∷ rest, e) q = advance_nth_hands n (rest, e) q

  run_schedule_hands :
      (ns : Schedule) (g : Group) (q : S × List String)
      → let (g', q') = run_schedule (logged engine) (unlogged torrents) ctx_err ns g q in
        Perm (waiting g'.0 ++ q'.1) (waiting g.0 ++ q.1)
  run_schedule_hands [] g q = Perm.refl _
  run_schedule_hands (n ∷ ns) g q =
      let (g', q') = advance_nth (logged engine) (unlogged torrents) ctx_err n g q in
      Perm.trans (run_schedule_hands ns g' q') (advance_nth_hands n g q)

  none_beyond : (n : ℕ) (jobs : List Job) → count_jobs jobs ≤ n → nth_job n jobs ≡ ended
  none_beyond n [] h = refl
  none_beyond zero (job ∷ jobs) h = absurd (ground arith)
  none_beyond (suc n) (job ∷ jobs) h = none_beyond n jobs (ground arith)

  none_waiting : (jobs : List Job) → ((n : ℕ) → nth_job n jobs ≡ ended) → waiting jobs ≡ []
  none_waiting [] h = refl
  none_waiting (restoring m ∷ jobs) h = absurd (ground (arith, h 0))
  none_waiting (capturing k ∷ jobs) h = absurd (ground (arith, h 0))
  none_waiting (recording k n l ∷ jobs) h = absurd (ground (arith, h 0))
  none_waiting (returning ∷ jobs) h = absurd (ground (arith, h 0))
  none_waiting (ended ∷ jobs) h = none_waiting jobs (λ n. h (suc n))

  all_end :
      (ns : Schedule) (g : Group) (q : S × List String)
      → IsFair ns (count_jobs g.0)
      → (n : ℕ)
      → nth_job n (run_schedule (logged engine) (unlogged torrents) ctx_err ns g q).0.0 ≡ ended
  all_end ns g q fair n = elim (Bool-cases (leb (count_jobs g.0) n)) [
    | inr within ↦
        schedule_ends (logged engine) (unlogged torrents) ctx_err ns n g q
          (fair n (ground (arith, within)))
    | inl beyond ↦
        let gone : nth_job n g.0 ≡ ended = none_beyond n g.0 (ground (arith, beyond)) in
        none_left (logged engine) (unlogged torrents) ctx_err
          (nth_job n (run_schedule (logged engine) (unlogged torrents) ctx_err ns g q).0.0)
          (ground (
            arith,
            gone,
            remaining-run_schedule (logged engine) (unlogged torrents) ctx_err ns n g q,
          ))
  ]

  waiting-start :
      (rows : List Torrent)
      → waiting (map (λ row. restoring row.magnet) rows) ≡ map (λ row. row.magnet) rows
  waiting-start [] = refl
  waiting-start (row ∷ rows) = ap (λ ms. row.magnet ∷ ms) (waiting-start rows)

  -- When the rows can be read and each goroutine gets its four turns: every goroutine returns,
  -- whatever the others do in between and whatever fails, and by then the engine has been handed the
  -- magnet of each torrent that is not paused exactly once, and no other.
  pub restore_hands :
      (rows : List Torrent) (ns : Schedule) (s : S) (n : ℕ)
      → (torrents.list s).0 ≡ ok rows
      → IsFair ns (count_jobs (restored_group rows).0)
      → let (started, q) = start (logged engine) (unlogged torrents) (s, []) in
        let (g, q') =
          run_schedule (logged engine) (unlogged torrents) ctx_err ns (restored_group rows) q in
        (started ≡ ok (restored_group rows))
        × (nth_job n g.0 ≡ ended)
        × Perm q'.1 (map (λ row. row.magnet) (unpaused rows))
  unfolding start
  restore_hands rows ns s n found fair =
      let q : S × List String = ((torrents.list s).1, []) in
      let begun : start (logged engine) (unlogged torrents) (s, [])
          ≡ (ok (restored_group rows), q) =
        ground (arith, found) in
      let (g, q') =
        run_schedule (logged engine) (unlogged torrents) ctx_err ns (restored_group rows) q in
      let hands = run_schedule_hands ns (restored_group rows) q in
      let over = none_waiting g.0 (all_end ns (restored_group rows) q fair) in
      rw begun (
        refl,
        all_end ns (restored_group rows) q fair n,
        hands_over (waiting g.0) q'.1 (waiting (restored_group rows).0)
            (map (λ row. row.magnet) (unpaused rows)) over (waiting-start (unpaused rows)) hands,
      )
