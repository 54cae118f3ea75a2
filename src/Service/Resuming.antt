-- ===== src/Service/Resuming.antt =====
-- What `Resume` on the server comes to: its answer, the flag in the database and the torrent client.
use mathlib.Core.Option
use mathlib.Core.Path.{subst}
use torrents.Prelude.{
  String, true, false, ◌≡◌, refl, sym, ap, ◌∙◌, Option, none, some, inl, inr, ◌==◌, eq_iff,
  if◌then◌else◌, Bool-cases, Option-cases,
}
use torrents.Go.Errors.{wrap}
use torrents.Go.Exec.{Result, ok, err, Result-cases, with_result}
use torrents.Database.Defs as Rows
use torrents.Database.Defs.{Row, Torrent, Env, tick}
use torrents.Database.Torrents.Table.{row_of}
use torrents.Database.Torrents.Valid.{IsValid}
use torrents.Database.Torrents.Order.{IsAlwaysUp}
use torrents.Engine.Path.{FilePath}
use torrents.Engine.Defs.{World, Client}
use torrents.Service.Defs.{
  TorrentEngine, TorrentRepository, PieceRepository, persist_metadata, resume,
  err_torrent_not_found,
}
use torrents.Service.Methods.{resume_rolls_back, resume_takes_back, resume_missing}
use torrents.Service.Wiring.{torrent_repository, torrent_engine, piece_repository}
use torrents.Service.Frame.{SparesTable, table, paused_of, state-snapshot, set_paused_flag}
use torrents.Service.Pausing.{failed, get_missing_row, get_found_row, resume_lem}

module _ {C T M : Type 0} (env : Env) (client : Client (World C) T M) (data_dir : FilePath)
    (up : IsAlwaysUp env) (spares : SparesTable client) where
  abbrev engine : TorrentEngine (World C)
  engine = torrent_engine env client data_dir

  abbrev repository : TorrentRepository (World C)
  repository = torrent_repository env

  abbrev pieces : PieceRepository (World C)
  pieces = piece_repository env

  -- Writing metadata leaves the torrent client alone.
  client-persist_metadata :
      (h : String) (w : World C) → (persist_metadata engine repository pieces h w).client ≡ w.client
  unfolding persist_metadata
  client-persist_metadata h w =
      let kept = ap (λ (v : World C). v.client) (state-snapshot env client data_dir h w) in
      elim (Result-cases (engine.snapshot h w).0) [
        | inr (e, x) ↦ rw (x, persist_metadata) kept
        | inl (p, x) ↦ elim (Bool-cases (p.name == "")) [
          | inl n ↦ rw (x, n, persist_metadata) kept
          | inr n ↦ rw (x, n, persist_metadata) kept
        ]
      ]

  -- The end of a resumption, by the engine's answer: what the caller gets, the torrent's flag, and
  -- the torrent client.
  abbrev pub Resumed : String → Result String × World C → Result (Unit {0}) × World C → Type 0
  Resumed h (err e, w1) (r, w') =
      (r ≡ err (wrap "failed to re-add torrent to engine" e))
      × (paused_of h w' ≡ some true)
      × (w'.client ≡ w1.client)
  Resumed h (ok k, w1) (r, w') =
      (r ≡ ok tt) × (paused_of h w' ≡ some false) × (w'.client ≡ w1.client)

  abbrev pub Resumes : String → Option Row → World C → Result (Unit {0}) × World C → Type 0
  Resumes h none w (r, w') =
      (r ≡ err err_torrent_not_found) × (paused_of h w' ≡ none) × (w'.client ≡ w.client)
  Resumes h (some row) w end =
      Resumed h
        (engine.add_magnet row.magnet (repository.set_paused h false (repository.get h w).1).1) end

  resumed_flag :
      (h : String) (w w' : World C) (res : Result (Unit {0})) {row : Row}
      → IsValid (table w)
      → row_of h (table w) ≡ some row
      → resume engine repository pieces h w ≡ (res, w')
      → paused_of h w' ≡ some (failed res)
  resumed_flag h w w' res v there e =
      ap (λ (x : Result (Unit {0}) × World C). paused_of h x.1) (sym e)
      ∙ resume_lem env client data_dir up spares h w h v
      ∙ rw ((eq_iff h h).1 refl, there)
          (ap (λ (x : Result (Unit {0}) × World C). some (failed x.0)) e)

  resume_taken :
      (h : String) (w w1 : World C) (t : Torrent) {row : Row}
      → IsValid (table w)
      → row_of h (table w) ≡ some row
      → repository.get h w ≡ (ok t, w1)
      → (repository.set_paused h false w1).0 ≡ ok tt
      → Resumed h
          (engine.add_magnet t.magnet (repository.set_paused h false w1).1)
          (resume engine repository pieces h w)
  resume_taken h w w1 t v there found unpaused =
      let w2 = (repository.set_paused h false w1).1 in
      let w3 = (engine.add_magnet t.magnet w2).1 in
      let set = with_result (repository.set_paused h false w1) unpaused in
      elim (Result-cases (engine.add_magnet t.magnet w2).0) [
        | inr (e, refused) ↦
            let added = with_result (engine.add_magnet t.magnet w2) refused in
            let ends =
              resume_rolls_back engine repository pieces h t w w1 w2 w3 e found set added in
            subst (λ a. Resumed h a (resume engine repository pieces h w)) (sym added)
              (subst (λ b. Resumed h (err e, w3) b) (sym ends)
                (refl, resumed_flag h w _ _ v there ends, refl))
        | inl (k, taken) ↦
            let added = with_result (engine.add_magnet t.magnet w2) taken in
            let ends =
              resume_takes_back engine repository pieces h k t w w1 w2 w3 found set added in
            subst (λ a. Resumed h a (resume engine repository pieces h w)) (sym added)
              (subst (λ b. Resumed h (ok k, w3) b) (sym ends)
                (refl, resumed_flag h w _ _ v there ends, client-persist_metadata k w3))
      ]

  resume_ends :
      (h : String) (w : World C)
      → IsValid (table w)
      → Resumes h (row_of h (table w)) w (resume engine repository pieces h w)
  resume_ends h w v = elim (Option-cases (row_of h (table w))) [
    | inl gone ↦
        rw
          (resume_missing engine repository pieces h w (record w { store = tick w.store })
            Rows.err_torrent_not_found (get_missing_row env client data_dir up spares h w gone)
            refl)
          (rw gone (refl, rw gone refl, refl))
    | inr (r, there) ↦
        let (t, found, magnet) = get_found_row env client data_dir up spares h w v there in
        let w1 : World C = record w { store = tick w.store } in
        let w2 = (repository.set_paused h false w1).1 in
        let unpaused = (set_paused_flag env up h false w1 h).0 ∙ rw there refl in
        rw there (
          subst
            (λ (s : World C).
              Resumed h (engine.add_magnet r.magnet (repository.set_paused h false s).1)
                (resume engine repository pieces h w))
            {x = w1} {y = (repository.get h w).1} (sym (ap (λ x. x.1) found))
            (subst (λ m. Resumed h (engine.add_magnet m w2) (resume engine repository pieces h w))
              magnet (resume_taken h w w1 t v there found unpaused)))
  ]

  -- With no database call failing, a client that spares the table `torrent` and a valid table:
  -- resuming a hash without a row reports not-found and leaves the torrent client alone. Resuming any
  -- other hands the magnet of its row to the engine, after the flag was cleared, and leaves the
  -- client as the engine's add did: if the engine took it the call succeeds and the torrent is
  -- unpaused, if not the call fails with the engine's error and the torrent is paused. No flag of
  -- another torrent changes.
  pub resume-Resumes :
      (h : String) (w : World C) (j : String)
      → IsValid (table w)
      → let (r, w') = resume engine repository pieces h w in
        Resumes h (row_of h (table w)) w (r, w')
        × (paused_of j w'
            ≡ (if j == h then Option.map (λ _. failed r) (paused_of j w) else paused_of j w))
  resume-Resumes h w j v = (resume_ends h w v, resume_lem env client data_dir up spares h w j v)
