-- ===== src/Service/Program/Overtaken.antt =====
-- What is left of a torrent that is paused and resumed together, on the server's own database.
use mathlib.Core.Option
use torrents.Prelude.{String, Bool, true, false, ◌≡◌, refl, ap, ◌∙◌, some, [], ◌∷◌, eq_iff}
use torrents.Go.Exec.{Result, ok, with_result}
use torrents.Database.Defs.{Row, Env, Hash}
use torrents.Database.Torrents.Table.{row_of}
use torrents.Database.Torrents.Order.{IsAlwaysUp}
use torrents.Database.Torrents.Valid.{IsValid, IsClock}
use torrents.Engine.Path.{FilePath}
use torrents.Engine.Defs.{World, Client}
use torrents.Service.Defs.{
  TorrentEngine, TorrentRepository, PieceRepository, persist_bytes_completed, remove_from_engine,
  resume,
}
use torrents.Service.Wiring.{torrent_repository, torrent_engine, piece_repository}
use torrents.Service.Frame.{SparesTable, table, paused_of, set_paused_flag}
use torrents.Service.Invariant.{bytes_keeps, remove_from_engine_keeps}
use torrents.Service.Always.{pause_call, resume_call, HasValidTable, table-IsKept}
use torrents.Service.Pausing.{
  remove_from_engine_ok, table-remove_from_engine, persist_bytes_completed_flag, resume_lem,
}
use torrents.Service.Program.{reply}
use torrents.Service.Program.Requests.{done_reply}
use torrents.Service.Program.Pool.{begin, Runs}
use torrents.Service.Program.Races.{between}

module _ {C T M : Type 0} (env : Env) (client : Client (World C) T M) (data_dir : FilePath)
    (up : IsAlwaysUp env) (clock : IsClock env) (spares : SparesTable client) where
  abbrev engine : TorrentEngine (World C)
  engine = torrent_engine env client data_dir

  abbrev repository : TorrentRepository (World C)
  repository = torrent_repository env

  abbrev pieces : PieceRepository (World C)
  pieces = piece_repository env

  -- The state in which a pause has taken the torrent out of the engine, and not yet set its flag.
  abbrev pub half_paused : String → World C → World C
  half_paused h w =
      (remove_from_engine engine repository pieces h false
        (persist_bytes_completed engine repository pieces h w)).1

  half_paused-IsValid :
      (h : String) (w : World C) → IsValid (table w) → IsValid (table (half_paused h w))
  half_paused-IsValid h w v =
      let P = HasValidTable env client data_dir clock spares in
      let kept = table-IsKept env client data_dir clock spares in
      remove_from_engine_keeps engine repository pieces P kept h false
        (persist_bytes_completed engine repository pieces h w)
        (bytes_keeps engine repository pieces P kept h w v)

  same_flag : (h : String) (w : World C) → paused_of h (half_paused h w) ≡ paused_of h w
  same_flag h w =
      let w1 = persist_bytes_completed engine repository pieces h w in
      ap (λ rows. Option.map (λ (r : Row). r.is_paused) (row_of h rows))
        (table-remove_from_engine env client data_dir up spares h false w1)
      ∙ persist_bytes_completed_flag env client data_dir up spares h w h

  -- A resume that succeeds there.
  abbrev pub resumed : String → World C → Result (Unit {0}) × World C
  resumed h w = resume engine repository pieces h (half_paused h w)

  resumed_flag :
      (h : String) (w : World C) {b : Bool}
      → IsValid (table w)
      → paused_of h w ≡ some b
      → (resumed h w).0 ≡ ok tt
      → paused_of h (resumed h w).1 ≡ some false
  resumed_flag h w v managed done =
      resume_lem env client data_dir up spares h (half_paused h w) h (half_paused-IsValid h w v)
      ∙ rw (done, same_flag h w, managed, (eq_iff h h).1 refl) refl

  -- With no database call failing, a clock that keeps nanoseconds below a second and a client that
  -- spares the table `torrent`, on a valid table: a pause and a resume of one managed torrent that are
  -- under way together can both be answered with success and leave the torrent paused in the database
  -- while the torrent client is as the resume left it, which had just unpaused the torrent, namely
  -- where a resume that succeeds comes between the last two calls of the pause.
  pub pause_overtaken :
      (h : String) (w : World C) {k : Hash} {b : Bool}
      → env.from_hex_string h ≡ ok k
      → IsValid (table w)
      → paused_of h w ≡ some b
      → (resumed h w).0 ≡ ok tt
      → (w' : World C) × Runs engine repository pieces
          (begin (pause_call h ∷ resume_call h ∷ []), w)
          (reply (ok done_reply) ∷ reply (ok done_reply) ∷ [], w')
        × (paused_of h (resumed h w).1 ≡ some false)
        × (paused_of h w' ≡ some true)
        × (w'.client ≡ (resumed h w).1.client)
  pause_overtaken h w parsed v managed done =
      let w1 = persist_bytes_completed engine repository pieces h w in
      let w3 = (resumed h w).1 in
      let unpaused = resumed_flag h w v managed done in
      let flag = set_paused_flag env up h true w3 h in
      let w4 = (repository.set_paused h true w3).1 in
      (
        w4,
        between engine repository pieces h w w1 (half_paused h w) w3 w4 refl
            (with_result (remove_from_engine engine repository pieces h false w1)
              (remove_from_engine_ok env client data_dir up spares h w1 parsed))
            (with_result (resumed h w) done)
            (with_result (repository.set_paused h true w3) (flag.0 ∙ rw unpaused refl)),
        unpaused,
        flag.1 ∙ rw (unpaused, (eq_iff h h).1 refl) refl,
        refl,
      )
