-- ===== src/Server/Start.antt =====
-- `Run` of internal/server/server.go with what it starts: `Open` of
-- internal/server/database/database.go with its migrations, and `NewClient` of
-- internal/server/torrent/client.go. What is deferred is run on the way out.
use torrents.Prelude.{String, Bool, Option, none, some, List, [], ◌∷◌, ◌++◌, ◌==◌, if◌then◌else◌}
use Prim.Native.String.{◌++◌ as append}
use torrents.Go.Errors.{Error, plain, wrap}
use torrents.Go.Exec.{ok, err, Exec, or_else, pure, raise}
use torrents.Service.Restore.{first_error}
use torrents.Server.{Config, validate}

-- What happens in a run, in its order.
pub data Event : Type 0 where
  opened_database loaded opened_client restored listening closed_client closed_database : Event

-- The calls that leave the program: the file system, SQLite, the migrations, the torrent client and
-- the HTTP server. `no_change` and `server_closed` are `errors.Is` to migrate.ErrNoChange and
-- http.ErrServerClosed; `listen_first` tells which goroutine of the last group returns first.
pub record Host (S : Type 0) : Type 0 where
  pub path_join : String → String → String
  pub join_errors : List Error → Error
  pub to_lower : String → String
  pub make_dir : String → Exec S (Unit {0})
  pub sql_open : String → Exec S (Unit {0})
  pub ping : Exec S (Unit {0})
  pub migration_source : Exec S (Unit {0})
  pub migration_driver : Exec S (Unit {0})
  pub new_migrate : Exec S (Unit {0})
  pub migrate_up : Exec S (Unit {0})
  pub no_change : Error → Bool
  pub close_database : S → S
  pub new_client : String → Exec S (Unit {0})
  pub close_client : S → S
  pub listen : String → S → Option Error × S
  pub shutdown : S → Option Error × S
  pub listen_first : S → Bool
  pub server_closed : Error → Bool

-- The server's state and the events so far.
pub record Process (S : Type 0) : Type 0 where
  pub state : S
  pub events : List Event

-- What `Open` adds to the path.
abbrev pub pragmas : String
pragmas =
    "?_pragma=journal_mode(wal)&_pragma=busy_timeout(5000)&_pragma=synchronous(normal)&_pragma=cache_size(-65536)&_pragma=mmap_size(268435456)&_pragma=temp_store(memory)"

module _ {S : Type 0} where
  abbrev pub lift : {A : Type 0} → Exec S A → Exec (Process S) A
  lift m p = let (r, s) = m p.state in (r, record p { state = s })

  abbrev pub emit : Event → Process S → Process S
  emit e p = record p { events = p.events ++ e ∷ [] }

module _ {S : Type 0} (host : Host S) where
  abbrev pub close_database : Process S → Process S
  close_database p = emit closed_database (record p { state = host.close_database p.state })

  abbrev pub close_client : Process S → Process S
  close_client p = emit closed_client (record p { state = host.close_client p.state })

  unfoldable pub new_migrator : Exec S (Unit {0})
  new_migrator =
      or_else host.migration_source (λ e. raise (wrap "failed to load migration source" e))
        (λ _.
          or_else host.migration_driver (λ e. raise (wrap "failed to construct migration driver" e))
            (λ _.
              or_else host.new_migrate (λ e. raise (wrap "failed to construct migrator" e)) pure))

  unfoldable pub migrate_up : Exec S (Unit {0})
  migrate_up = or_else (new_migrator) raise (λ _.
      or_else host.migrate_up
        (λ e. if host.no_change e then pure tt else raise (wrap "failed to apply migrations" e))
        pure)

  unfoldable pub open_database : String → Exec (Process S) (Unit {0})
  open_database path =
      or_else (lift (host.sql_open (append path pragmas)))
        (λ e. raise (wrap "failed to open database" e))
        (λ _ p.
          or_else (lift host.ping)
            (λ e q. (err (wrap "failed to connect to database" e), close_database q))
            (λ _.
              or_else (lift migrate_up)
                (λ e q. (err (wrap "failed to run migrations" e), close_database q)) pure)
            (emit opened_database p))

  -- `NewClient`, whose store of completions `Run` always gives.
  unfoldable pub new_client : String → Exec (Process S) (Unit {0})
  new_client data_dir =
      if data_dir == ""
      then raise (plain "data directory is required")
      else or_else (lift (host.make_dir data_dir))
          (λ e. raise (wrap "failed to create data directory" e))
          (λ _.
            or_else (lift (host.new_client data_dir))
              (λ e. raise (wrap "failed to create torrent client" e))
              (λ _ p. (ok tt, emit opened_client p)))

  -- The two goroutines, one of which waits for the context to end and shuts the server down, and the
  -- error of their group.
  unfoldable pub serve : String → Exec (Process S) (Unit {0})
  serve address p =
      let (a, s1) = host.listen address p.state in
      let (b, s2) = host.shutdown s1 in
      let q = emit listening (record p { state = s2 }) in
      elim (if host.listen_first s2 then first_error a b else first_error b a) [
        | none ↦ (ok tt, q)
        | some e ↦ (if host.server_closed e then ok tt else err e, q)
      ]

  -- `defer client.Close()` and `defer db.Close()`: what follows is run, then the resource is closed.
  abbrev pub deferring :
      (Process S → Process S) → Exec (Process S) (Unit {0}) → Exec (Process S) (Unit {0})
  deferring close body p = let (r, q) = body p in (r, close q)

  -- `pieces.Load` and `torrents.Restore` are the program's own.
  module _ (load restore : Exec S (Unit {0})) where
    -- From the start of the client on.
    unfoldable pub run_client : Config → Exec (Process S) (Unit {0})
    run_client config =
        or_else (new_client (host.path_join config.data_config.directory "downloads"))
          (λ e. raise (wrap "failed to start torrent client" e))
          (λ _. deferring close_client (
            or_else (lift restore) (λ e. raise (wrap "failed to restore torrents" e))
              (λ _ p. serve config.http.address (emit restored p))))

    unfoldable pub run : Config → Exec (Process S) (Unit {0})
    run config = elim (validate host.to_lower config) [
      | e ∷ es ↦ raise (wrap "invalid configuration" (host.join_errors (e ∷ es)))
      | [] ↦
          or_else (lift (host.make_dir config.data_config.directory))
            (λ e. raise (wrap "failed to create data directory" e))
            (λ _.
              or_else (open_database (host.path_join config.data_config.directory "state.db"))
                (λ e. raise (wrap "failed to open database" e))
                (λ _. deferring close_database (
                  or_else (lift load) (λ e. raise (wrap "failed to load piece completion cache" e))
                    (λ _ p. run_client config (emit loaded p)))))
    ]
