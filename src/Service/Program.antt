-- ===== src/Service/Program.antt =====
-- The methods of internal/server/service/torrent.go as the sequences of calls that they make. Each
-- request runs in a goroutine of its own and takes no lock, so that the calls of two requests mix:
-- a call of an interface is the unit that is not divided.
pub mod Methods
pub mod Agreement
pub mod Equals
pub mod Requests
pub mod Pool
pub mod Kept
pub mod Undeleted
pub mod Retained
pub mod Races
pub mod Overtaken
use torrents.Prelude.{ℕ, String, Bool, List, ◌≡◌, refl}
use torrents.Go.Errors.{Error}
use torrents.Go.Exec.{Result, ok, err, Exec, or_else}
use torrents.Database.Defs.{Torrent as DbTorrent}
use torrents.Engine.Defs.{Progress, FileProgress}
use torrents.Service.Defs.{TorrentEngine, TorrentRepository, PieceRepository}

-- The calls of the three interfaces.
pub data Op : Type 0 where
  engine_add_magnet engine_add_file engine_snapshot engine_files : String → Op
  engine_remove : String → Bool → Op
  row_create : DbTorrent → Op
  row_get row_delete : String → Op
  row_list : Op
  row_set_metadata : String → String → ℕ → Op
  row_set_bytes_completed : String → ℕ → Op
  row_set_paused : String → Bool → Op
  pieces_forget : String → Op

abbrev pub Answer : Op → Type 0
Answer (engine_add_magnet uri) = Result String
Answer (engine_add_file file) = Result String
Answer (engine_snapshot h) = Result Progress
Answer (engine_files h) = Result (List FileProgress)
Answer (engine_remove h d) = Result (Unit {0})
Answer (row_create t) = Result (Unit {0})
Answer (row_get h) = Result DbTorrent
Answer (row_delete h) = Result (Unit {0})
Answer row_list = Result (List DbTorrent)
Answer (row_set_metadata h name length) = Result (Unit {0})
Answer (row_set_bytes_completed h n) = Result (Unit {0})
Answer (row_set_paused h paused) = Result (Unit {0})
Answer (pieces_forget h) = Unit

-- What is left of a goroutine: its result, or its next call and what it does with the answer.
pub data Program (A : Type 0) : Type 0 where
  reply : Result A → Program A
  ask : (op : Op) → (Answer op → Program A) → Program A

-- `x, err := m()`, followed by the code that tests `err`.
abbrev pub attempt : {A B : Type 0} → Program A → (Error → Program B) → (A → Program B) → Program B
attempt (reply (ok a)) f k = k a
attempt (reply (err e)) f k = f e
attempt (ask op c) f k = ask op (λ r. attempt (c r) f k)

module _ {S : Type 0} (engine : TorrentEngine S) (torrents : TorrentRepository S)
    (pieces : PieceRepository S) where
  abbrev pub perform : (op : Op) → S → Answer op × S
  perform (engine_add_magnet uri) s = engine.add_magnet uri s
  perform (engine_add_file file) s = engine.add_file file s
  perform (engine_snapshot h) s = engine.snapshot h s
  perform (engine_files h) s = engine.files h s
  perform (engine_remove h d) s = engine.remove h d s
  perform (row_create t) s = torrents.create t s
  perform (row_get h) s = torrents.get h s
  perform (row_delete h) s = torrents.delete h s
  perform row_list s = torrents.list s
  perform (row_set_metadata h name length) s = torrents.set_metadata h name length s
  perform (row_set_bytes_completed h n) s = torrents.set_bytes_completed h n s
  perform (row_set_paused h paused) s = torrents.set_paused h paused s
  perform (pieces_forget h) s = (tt, pieces.forget h s)

  -- A goroutine that is alone.
  abbrev pub run_alone : {A : Type 0} → Program A → Exec S A
  run_alone (reply r) s = (r, s)
  run_alone (ask op k) s = let (a, s') = perform op s in run_alone (k a) s'
