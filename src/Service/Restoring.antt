-- ===== src/Service/Restoring.antt =====
-- What restoring the torrents does to the database, whatever the order of its goroutines' calls.
use mathlib.Core.Option
use torrents.Prelude.{
  ℕ, zero, suc, ◌+◌, ◌<◌, String, ◌≡◌, refl, ap, ◌∙◌, Option, List, [], ◌∷◌, arith,
}
use torrents.Go.Errors.{Error}
use torrents.Database.Defs.{Row, Env}
use torrents.Database.Torrents.Table.{row_of}
use torrents.Database.Torrents.Order.{IsAlwaysUp}
use torrents.Engine.Path.{FilePath}
use torrents.Engine.Defs.{World, Client}
use torrents.Service.Defs.{TorrentEngine, TorrentRepository}
use torrents.Service.Wiring.{torrent_repository, torrent_engine}
use torrents.Service.Frame.{
  SparesTable, paused_of, state-snapshot, table-add_magnet, set_metadata_flag,
}
use torrents.Service.Restore.{
  Job, restoring, capturing, recording, returning, ended, Group, advance, advance_nth, Interleaves,
  stop, next,
}

-- The calls that a goroutine has left, at most.
abbrev pub remaining : Job → ℕ
remaining (restoring m) = 4
remaining (capturing h) = 3
remaining (recording h n l) = 2
remaining returning = 1
remaining ended = 0

abbrev pub total : List Job → ℕ
total [] = 0
total (job ∷ jobs) = remaining job + total jobs

-- The calls that the n-th goroutine has left.
abbrev pub remaining_of : ℕ → List Job → ℕ
remaining_of n [] = 0
remaining_of zero (job ∷ jobs) = remaining job
remaining_of (suc n) (job ∷ jobs) = remaining_of n jobs

module _ {S : Type 0} (engine : TorrentEngine S) (torrents : TorrentRepository S)
    (ctx_err : S → Option Error) where
  advance_lt :
      (job : Job) (s : S)
      → 0 < remaining job
      → remaining (advance engine torrents job s).0 < remaining job
  unfolding advance
  advance_lt (restoring m) s h = ground arith
  advance_lt (capturing k) s h = ground arith
  advance_lt (recording k n l) s h = ground arith
  advance_lt returning s h = ground arith
  advance_lt ended s h = ground arith

  -- Each call of a goroutine that has not returned lowers the bound on the calls that are left to
  -- the group, which starts at four for each goroutine.
  pub advance_nth_lt :
      (n : ℕ) (g : Group) (s : S)
      → 0 < remaining_of n g.0
      → total (advance_nth engine torrents ctx_err n g s).0.0 < total g.0
  unfolding advance_nth
  advance_nth_lt n ([], e) s h = ground arith
  advance_nth_lt zero (job ∷ rest, e) s h = omega (arith, advance_lt job s h)
  advance_nth_lt (suc n) (job ∷ rest, e) s h = omega (arith, advance_nth_lt n (rest, e) s h)

module _ {C T M : Type 0} (env : Env) (client : Client (World C) T M) (data_dir : FilePath)
    (up : IsAlwaysUp env) (spares : SparesTable client) (ctx_err : World C → Option Error) where
  abbrev engine : TorrentEngine (World C)
  engine = torrent_engine env client data_dir

  abbrev repository : TorrentRepository (World C)
  repository = torrent_repository env

  advance_flag :
      (job : Job) (w : World C) (j : String)
      → paused_of j (advance engine repository job w).1 ≡ paused_of j w
  unfolding advance
  advance_flag (restoring m) w j = ground (
    arith,
    ap (λ rows. Option.map (λ (r : Row). r.is_paused) (row_of j rows))
        (table-add_magnet env client data_dir m w spares),
  )
  advance_flag (capturing h) w j = ground (arith, state-snapshot env client data_dir h w)
  advance_flag (recording h name n) w j = set_metadata_flag env up h name n w j
  advance_flag returning w j = refl
  advance_flag ended w j = refl

  advance_nth_flag :
      (n : ℕ) (g : Group) (w : World C) (j : String)
      → paused_of j (advance_nth engine repository ctx_err n g w).1 ≡ paused_of j w
  unfolding advance_nth
  advance_nth_flag n ([], e) w j = refl
  advance_nth_flag zero (job ∷ rest, e) w j = advance_flag job w j
  advance_nth_flag (suc n) (job ∷ rest, e) w j = advance_nth_flag n (rest, e) w j

  -- With no database call failing and a client that spares the table `torrent`: in whatever order
  -- the goroutines of `Restore` make their calls, and wherever they are stopped, the set of managed
  -- torrents and their paused flags stay as they are.
  pub restore_flags :
      (j : String) {c d : Group × World C}
      → Interleaves engine repository ctx_err c d
      → paused_of j d.1 ≡ paused_of j c.1
  restore_flags j stop = refl
  restore_flags j (next n {g} {s} rest) = restore_flags j rest ∙ advance_nth_flag n g s j
