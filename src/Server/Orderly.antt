-- ===== src/Server/Orderly.antt =====
-- The order in which a run of the server opens, starts and closes what it holds.
use torrents.Prelude.{String, Bool, true, false, ◌≡◌, refl, List, [], ◌∷◌, ◌++◌, ◌||◌, arith}
use torrents.Go.Exec.{Result, ok, err, Exec}
use torrents.Server.{Config}
use torrents.Server.Start.{
  Event, opened_database, loaded, opened_client, restored, listening, closed_client,
  closed_database, Host, Process, open_database, new_client, serve, run_client, run,
}

-- How far a run has come.
pub data Phase : Type 0 where
  down has_database is_loaded has_client ready serving client_closed : Phase
  disorder : Phase

-- An event in a phase: each thing is started on top of what it needs, and closed before it.
abbrev pub next : Phase → Event → Phase
next down opened_database = has_database
next has_database loaded = is_loaded
next is_loaded opened_client = has_client
next has_client restored = ready
next ready listening = serving
next has_client closed_client = client_closed
next ready closed_client = client_closed
next serving closed_client = client_closed
next has_database closed_database = down
next is_loaded closed_database = down
next client_closed closed_database = down
next p e = disorder

abbrev pub follow : Phase → List Event → Phase
follow p [] = p
follow p (e ∷ es) = follow (next p e) es

abbrev pub has_listened : List Event → Bool
has_listened [] = false
has_listened (listening ∷ es) = true
has_listened (opened_database ∷ es) = has_listened es
has_listened (loaded ∷ es) = has_listened es
has_listened (opened_client ∷ es) = has_listened es
has_listened (restored ∷ es) = has_listened es
has_listened (closed_client ∷ es) = has_listened es
has_listened (closed_database ∷ es) = has_listened es

-- The result of a run and what happened in it: a run without an error has listened.
abbrev pub accounts : Result (Unit {0}) → List Event → Bool
accounts (ok u) es = has_listened es
accounts (err e) es = true

follow-append :
    (p : Phase) (xs : List Event) (e : Event) → follow p (xs ++ e ∷ []) ≡ next (follow p xs) e
follow-append p [] e = refl
follow-append p (x ∷ xs) e = follow-append (next p x) xs e

has_listened-append :
    (xs : List Event) (e : Event)
    → has_listened (xs ++ e ∷ []) ≡ (has_listened xs || has_listened (e ∷ []))
has_listened-append [] e = refl
has_listened-append (listening ∷ xs) e = refl
has_listened-append (opened_database ∷ xs) e = has_listened-append xs e
has_listened-append (loaded ∷ xs) e = has_listened-append xs e
has_listened-append (opened_client ∷ xs) e = has_listened-append xs e
has_listened-append (restored ∷ xs) e = has_listened-append xs e
has_listened-append (closed_client ∷ xs) e = has_listened-append xs e
has_listened-append (closed_database ∷ xs) e = has_listened-append xs e

accounts-append :
    (r : Result (Unit {0})) (es : List Event) (e : Event)
    → accounts r es ≡ true
    → accounts r (es ++ e ∷ []) ≡ true
accounts-append (ok u) es e h = ground (arith, has_listened-append es e)
accounts-append (err x) es e h = refl

abbrev reached : Phase → Phase → Result (Unit {0}) → Phase
reached on_ok on_err (ok u) = on_ok
reached on_ok on_err (err e) = on_err

module _ {S : Type 0} (host : Host S) where
  open_database_lem :
      (path : String) (p : Process S)
      → follow down p.events ≡ down
      → (let (r, q) = open_database host path p in
          follow down q.events ≡ reached has_database down r)
  unfolding open_database
  open_database_lem path p h = ground (
    arith,
    follow-append down p.events opened_database,
    follow-append down (p.events ++ opened_database ∷ []) closed_database,
  )

  new_client_lem :
      (dir : String) (p : Process S)
      → follow down p.events ≡ is_loaded
      → (let (r, q) = new_client host dir p in
          follow down q.events ≡ reached has_client is_loaded r)
  unfolding new_client
  new_client_lem dir p h = ground (arith, follow-append down p.events opened_client)

  serve_lem :
      (address : String) (p : Process S)
      → follow down p.events ≡ ready
      → (let (r, q) = serve host address p in
          (follow down q.events ≡ serving) × (has_listened q.events ≡ true))
  unfolding serve
  serve_lem address p h =
      ground (arith, follow-append down p.events listening, has_listened-append p.events listening)

  -- With what is loaded and restored.
  module _ (load restore : Exec S (Unit {0})) where
    run_client_lem :
        (config : Config) (p : Process S)
        → follow down p.events ≡ is_loaded
        → (let (r, q) = run_client host load restore config p in
            (next (follow down q.events) closed_database ≡ down) × (accounts r q.events ≡ true))
    unfolding run_client
    run_client_lem config p h =
        let dir = host.path_join config.data_config.directory "downloads" in
        let q = (new_client host dir p).1 in
        let s1 = (restore q.state).1 in
        let p1 = record p { state = s1; events = q.events ++ restored ∷ [] } in
        ground (
          arith,
          new_client_lem dir p h,
          follow-append down q.events closed_client,
          follow-append down q.events restored,
          serve_lem config.http.address p1,
          follow-append down (serve host config.http.address p1).1.events closed_client,
          has_listened-append (serve host config.http.address p1).1.events closed_client,
        )

    -- Whatever fails, a run of the server starts from and comes back to nothing held: the database is
    -- opened first, the completions are loaded from it before the client starts, the torrents are
    -- restored before the address is listened on, the client is closed before the database and both
    -- before the end. A run without an error has listened.
    pub follow-run :
        (config : Config) (s : S)
        → (let (r, p) = run host load restore config (record { state = s; events = [] }) in
            (follow down p.events ≡ down) × (accounts r p.events ≡ true))
    unfolding run
    follow-run config s =
        let (made, s1) = host.make_dir config.data_config.directory s in
        let start : Process S = record { state = s1; events = [] } in
        let (opened, p) =
          open_database host (host.path_join config.data_config.directory "state.db") start in
        let p1 : Process S = record {
          state = (load p.state).1;
          events = p.events ++ loaded ∷ [];
        } in
        let (r, q) = run_client host load restore config p1 in
        ground (
          arith,
          open_database_lem (host.path_join config.data_config.directory "state.db") start refl,
          follow-append down p.events closed_database,
          follow-append down p.events loaded,
          run_client_lem config p1,
          follow-append down q.events closed_database,
          accounts-append r q.events closed_database,
        )
