-- ===== src/Service/Restore.antt =====
-- `Restore` of internal/server/service/torrent.go: a goroutine for each torrent that is not paused.
-- Their calls into the engine and the repository interleave; each call is one step.
use torrents.Prelude.{
  ℕ, zero, suc, String, not, Option, none, some, List, [], ◌∷◌, map, ◌==◌, keep, if◌then◌else◌,
}
use torrents.Go.Errors.{Error, wrap}
use torrents.Go.Exec.{Result, ok, err, Exec, or_else, pure, raise}
use torrents.Service.Defs.{TorrentEngine, TorrentRepository}

-- Where a goroutine stands: before `AddMagnet`, before `Snapshot` and before `SetMetadata` of
-- `persistMetadata`, before its last line, and after it.
pub data Job : Type 0 where
  restoring capturing : String → Job
  recording : String → String → ℕ → Job
  returning ended : Job

-- The group: its goroutines, and the first error that one of them returned.
abbrev pub Group : Type 0
Group = List Job × Option Error

abbrev pub first_error : Option Error → Option Error → Option Error
first_error none e = e
first_error (some e) _ = some e

module _ {S : Type 0} (engine : TorrentEngine S) (torrents : TorrentRepository S) where
  -- One call of a goroutine.
  unfoldable pub advance : Job → S → Job × S
  advance (restoring magnet) s =
      let (r, s') = engine.add_magnet magnet s in
      elim r [ err e ↦ (ended, s') | ok hash ↦ (capturing hash, s') ]
  advance (capturing hash) s =
      let (r, s') = engine.snapshot hash s in
      elim r [
        | err e ↦ (returning, s')
        | ok progress ↦
            if progress.name == ""
            then (returning, s')
            else (recording hash progress.name progress.length, s')
      ]
  advance (recording hash name length) s = (returning, (torrents.set_metadata hash name length s).1)
  advance returning s = (ended, s)
  advance ended s = (ended, s)

  -- One call of the n-th goroutine. `ctx_err` is the error of the context in a state.
  unfoldable pub advance_nth : (S → Option Error) → ℕ → Group → S → Group × S
  unfolding advance
  advance_nth ctx_err n ([], e) s = (([], e), s)
  advance_nth ctx_err zero (job ∷ rest, e) s =
      let (job', s') = advance job s in
      ((job' ∷ rest, elim job [ returning ↦ first_error e (ctx_err s) | _ ↦ e ]), s')
  advance_nth ctx_err (suc n) (job ∷ rest, e) s =
      let (g, s') = advance_nth ctx_err n (rest, e) s in ((job ∷ g.0, g.1), s')

  -- The calls of the goroutines in some order, from one state of the server to another.
  pub data Interleaves (ctx_err : S → Option Error) : Group × S → Group × S → Type 0 where
    stop : {c : Group × S} → Interleaves ctx_err c c
    next :
        (n : ℕ) {g : Group} {s : S} {d : Group × S}
        → Interleaves ctx_err (advance_nth ctx_err n g s) d
        → Interleaves ctx_err (g, s) d

  -- The goroutines that `Restore` starts.
  unfoldable pub start : Exec S Group
  start =
      or_else torrents.list (λ e. raise (wrap "failed to list torrents" e))
        (λ rows. pure (map (λ row. restoring row.magnet) (keep (λ row. not row.paused) rows), none))

-- `group.Wait()`, once all goroutines have returned.
abbrev pub wait : Group → Result (Unit {0})
wait g = elim g.1 [ none ↦ ok tt | some e ↦ err e ]
