-- ===== src/Server/Lifecycle.antt =====
-- The table `torrent` from the start of the server to its end.
use mathlib.Core.Path.{subst}
use torrents.Prelude.{Bool, ◌≡◌, sym, Option, List, [], ◌∷◌, arith, inl, inr, Option-cases}
use torrents.Go.Errors.{Error}
use torrents.Go.Exec.{Result, raise, Result-cases}
use torrents.Database.Defs.{Store, Env, PieceRow, PieceKey, call, call-up, call-down}
use torrents.Database.Torrents.Valid.{IsValid, IsClock}
use torrents.Database.Pieces as Pieces
use torrents.Engine.Path.{FilePath}
use torrents.Engine.Defs.{World, Client}
use torrents.Service.Defs.{TorrentEngine, TorrentRepository, PieceRepository}
use torrents.Service.Wiring.{torrent_repository, torrent_engine, piece_repository, on_store}
use torrents.Service.Frame.{table, SparesTable}
use torrents.Service.Fairness.{Schedule}
use torrents.Service.Invariant.{Preserves, or_else_keeps}
use torrents.Service.Always.{Call, HasValidTable, table-IsKept}
use torrents.Service.Program.Pool.{Turn, begin, take_turns}
use torrents.Service.Program.Kept.{BackgroundKeeps, take_turns-IsValid}
use torrents.Service.Restored.{restore, restore_keeps}
use torrents.Server.{Config}
use torrents.Server.Start.{Host, Process, run}
use torrents.Server.Kept.{HostKeeps, run_keeps}

abbrev Valid : Store → Type 0
Valid s = IsValid s.torrents

call_keeps : (env : Env) → Preserves Valid (call env)
call_keeps env s v = subst IsValid {x = s.torrents} {y = (call env s).1.torrents} (sym same) v
  where
    same : (call env s).1.torrents ≡ s.torrents
    same = elim (Option-cases (env.fault s.calls)) [
      | inl up ↦ ground (arith, call-up env s up)
      | inr (e, down) ↦ ground (arith, call-down env s down)
    ]

load_rows_keeps :
    (env : Env) (rows : List PieceRow) (cache : List (PieceKey × Bool))
    → Preserves Valid (Pieces.load_rows env rows cache)
unfolding Pieces.load_rows
load_rows_keeps env [] cache s v = v
load_rows_keeps env (r ∷ rows) cache s0 v0 =
    or_else_keeps Valid (call env) _ _ (call_keeps env) (λ e s v. v)
      (λ _ s v. elim (Result-cases (env.from_hex_string r.info_hash)) [
        | inl (h, x) ↦ rw (x, Pieces.load_rows) (load_rows_keeps env rows _ s v)
        | inr (e, x) ↦ rw (x, Pieces.load_rows) v
      ])
      s0 v0

load_keeps : (env : Env) → Preserves Valid (Pieces.load env)
unfolding Pieces.load
load_keeps env =
    or_else_keeps Valid (call env) _ _ (call_keeps env) (λ e s v. v)
      (λ _ s v.
        or_else_keeps Valid (Pieces.load_rows env s.completions []) raise _
          (load_rows_keeps env s.completions []) (λ e s v. v)
          (λ loaded. or_else_keeps Valid (call env) _ _ (call_keeps env) (λ e s v. v) (λ _ s v. v))
          s v)

module _ {C T M : Type 0} (env : Env) (client : Client (World C) T M) (data_dir : FilePath)
    (host : Host (World C)) (ctx_err : World C → Option Error) where
  abbrev engine : TorrentEngine (World C)
  engine = torrent_engine env client data_dir

  abbrev repository : TorrentRepository (World C)
  repository = torrent_repository env

  abbrev pieces : PieceRepository (World C)
  pieces = piece_repository env

  -- The host with the requests that are under way together while it listens, and the turns that the
  -- scheduler gives to them and to the goroutines of the torrent client.
  abbrev pub with_requests : List Call → List (Turn (World C)) → Host (World C)
  with_requests calls turns = record host {
    listen = λ address w.
        let (r, w') = host.listen address w in
        (r, (take_turns engine repository pieces turns (begin calls, w')).1);
  }

  -- `Run` with the program's own `Load` and `Restore`.
  abbrev pub run_server :
      List Call
      → List (Turn (World C))
      → Schedule
      → Config
      → World C
      → Result (Unit {0}) × Process (World C)
  run_server calls turns ns config w =
      run (with_requests calls turns) (on_store (Pieces.load env))
        (restore engine repository ctx_err ns) config (record { state = w; events = [] })

  -- Where the clock keeps nanoseconds below a second, the client spares the table `torrent` and what
  -- leaves the program, the migrations and the steps of the client's goroutines among it, keeps the
  -- table valid: a run of the server ends with a valid table, whatever requests are under way in it
  -- together, in whatever order their calls and those of the restore's goroutines come, however it
  -- ends and whatever fails in it.
  pub run_server-IsValid :
      (calls : List Call) (turns : List (Turn (World C))) (ns : Schedule) (config : Config)
      (w : World C)
      → IsClock env
      → SparesTable client
      → HostKeeps host (λ v. IsValid (table v))
      → BackgroundKeeps {S = World C} (λ v. IsValid (table v)) turns
      → IsValid (table w)
      → IsValid (table (run_server calls turns ns config w).1.state)
  run_server-IsValid calls turns ns config w clock spares kept quiet v =
      let P = HasValidTable env client data_dir clock spares in
      run_keeps (with_requests calls turns) P
        (record {
          make_dir = kept.make_dir;
          sql_open = kept.sql_open;
          ping = kept.ping;
          migration_source = kept.migration_source;
          migration_driver = kept.migration_driver;
          new_migrate = kept.new_migrate;
          migrate_up = kept.migrate_up;
          close_database = kept.close_database;
          new_client = kept.new_client;
          close_client = kept.close_client;
          listen = λ address w' v'.
              take_turns-IsValid env client data_dir clock spares calls turns
                (host.listen address w').1 quiet (kept.listen address w' v');
          shutdown = kept.shutdown;
        })
        (on_store (Pieces.load env)) (restore engine repository ctx_err ns)
        (λ w' v'. load_keeps env w'.store v')
        (restore_keeps engine repository pieces P (table-IsKept env client data_dir clock spares)
          ctx_err ns)
        config w v
