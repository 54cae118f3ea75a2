-- ===== src/Server/Kept.antt =====
-- An invariant of the server's state through a run, from the start to the end.
use mathlib.Core.Path.{subst}
use torrents.Prelude.{sym, arith, String, ◌≡◌, List, [], ◌∷◌, ◌==◌}
use torrents.Go.Errors.{Error, wrap}
use torrents.Go.Exec.{Exec, pure, raise}
use torrents.Server.{Config, validate}
use torrents.Server.Start.{
  Host, Process, lift, emit, opened_database, loaded, restored, new_migrator, migrate_up,
  open_database, new_client, serve, run_client, run,
}
use torrents.Service.Invariant.{Preserves, or_else_keeps, if_else_keeps}

-- The laws: what leaves the program keeps the invariant.
pub record HostKeeps {S : Type 0} (host : Host S) (P : S → Type 0) : Type 0 where
  pub make_dir : (path : String) → Preserves P (host.make_dir path)
  pub sql_open : (path : String) → Preserves P (host.sql_open path)
  pub ping : Preserves P host.ping
  pub migration_source : Preserves P host.migration_source
  pub migration_driver : Preserves P host.migration_driver
  pub new_migrate : Preserves P host.new_migrate
  pub migrate_up : Preserves P host.migrate_up
  pub close_database : (s : S) → P s → P (host.close_database s)
  pub new_client : (path : String) → Preserves P (host.new_client path)
  pub close_client : (s : S) → P s → P (host.close_client s)
  pub listen : (address : String) (s : S) → P s → P (host.listen address s).1
  pub shutdown : (s : S) → P s → P (host.shutdown s).1

module _ {S : Type 0} (host : Host S) (P : S → Type 0) (kept : HostKeeps host P) where
  abbrev Held : Process S → Type 0
  Held p = P p.state

  new_migrator_keeps : Preserves P (new_migrator host)
  unfolding new_migrator
  new_migrator_keeps =
      or_else_keeps P host.migration_source _ _ kept.migration_source (λ e s p. p)
        (λ _.
          or_else_keeps P host.migration_driver _ _ kept.migration_driver (λ e s p. p)
            (λ _.
              or_else_keeps P host.new_migrate _ pure kept.new_migrate (λ e s p. p) (λ _ s p. p)))

  migrate_up_keeps : Preserves P (migrate_up host)
  unfolding migrate_up
  migrate_up_keeps =
      or_else_keeps P (new_migrator host) raise _ new_migrator_keeps (λ e s p. p)
        (λ _.
          or_else_keeps P host.migrate_up _ pure kept.migrate_up
            (λ e. if_else_keeps P (host.no_change e) _ _ (λ s p. p) (λ s p. p)) (λ _ s p. p))

  open_database_keeps : (path : String) → Preserves Held (open_database host path)
  unfolding open_database
  open_database_keeps path =
      or_else_keeps Held (lift (host.sql_open _)) _ _ (λ q p. kept.sql_open _ q.state p)
        (λ e q p. p)
        (λ _ q p.
          or_else_keeps Held (lift host.ping) _ _ (λ r h. kept.ping r.state h)
            (λ e r h. kept.close_database r.state h)
            (λ _.
              or_else_keeps Held (lift (migrate_up host)) _ pure (λ r h. migrate_up_keeps r.state h)
                (λ e r h. kept.close_database r.state h) (λ _ r h. h))
            (emit opened_database q) p)

  new_client_keeps : (dir : String) → Preserves Held (new_client host dir)
  unfolding new_client
  new_client_keeps dir =
      if_else_keeps Held (dir == "") _ _ (λ q p. p)
        (or_else_keeps Held (lift (host.make_dir dir)) _ _ (λ q p. kept.make_dir dir q.state p)
          (λ e q p. p)
          (λ _.
            or_else_keeps Held (lift (host.new_client dir)) _ _
              (λ q p. kept.new_client dir q.state p) (λ e q p. p) (λ _ q p. p)))

  state-serve :
      (address : String) (q : Process S)
      → (serve host address q).1.state ≡ (host.shutdown (host.listen address q.state).1).1
  unfolding serve
  state-serve address q = ground arith

  serve_keeps : (address : String) → Preserves Held (serve host address)
  unfolding serve
  serve_keeps address q p =
      let s1 = (host.listen address q.state).1 in
      let s2 = (host.shutdown s1).1 in
      subst P {x = s2} {y = (serve host address q).1.state} (sym (state-serve address q))
        (kept.shutdown s1 (kept.listen address q.state p))

  -- With the program's own `load` and `restore`.
  module _ (load restore : Exec S (Unit {0})) (loads : Preserves P load)
      (restores : Preserves P restore) where
    run_client_keeps : (config : Config) → Preserves Held (run_client host load restore config)
    unfolding run_client
    run_client_keeps config =
        or_else_keeps Held (new_client host _) _ _ (new_client_keeps _) (λ e q p. p)
          (λ _ q p. kept.close_client _ (
            or_else_keeps Held (lift restore) _ _ (λ r h. restores r.state h) (λ e r h. h)
              (λ _ r h. serve_keeps config.http.address (emit restored r) h) q p))

    checked_keeps :
        (es : List Error) (m : Exec (Process S) (Unit {0}))
        → Preserves Held m
        → Preserves Held (elim es as (λ _. Exec (Process S) (Unit {0})) [
          | e ∷ rest ↦ raise (wrap "invalid configuration" (host.join_errors (e ∷ rest)))
          | [] ↦ m
        ])
    checked_keeps [] m k q p = k q p
    checked_keeps (e ∷ rest) m k q p = p

    pub run_keeps :
        (config : Config) (s : S)
        → P s
        → P (run host load restore config (record { state = s; events = [] })).1.state
    unfolding run
    run_keeps config s p =
        checked_keeps (validate host.to_lower config) _
          (or_else_keeps Held (lift (host.make_dir config.data_config.directory)) _ _
            (λ q h. kept.make_dir config.data_config.directory q.state h) (λ e q h. h)
            (λ _.
              or_else_keeps Held (open_database host _) _ _ (open_database_keeps _) (λ e q h. h)
                (λ _ q h. kept.close_database _ (
                  or_else_keeps Held (lift load) _ _ (λ r g. loads r.state g) (λ e r g. g)
                    (λ _ r g. run_client_keeps config (emit loaded r) g) q h))))
          (record { state = s; events = [] }) p
