-- ===== src/Ui/Toggling.antt =====
-- The row that `Pause` and `Resume` of internal/server/ui/ui_torrent.go render.
use mathlib.Core.Option
use mathlib.Core.Path.{subst}
use torrents.Prelude.{
  String, Bool, true, false, ◌≡◌, refl, ap, ◌∙◌, Option, none, some, inl, inr, ◌==◌, eqb, leb,
  eq_refl, [], ◌∷◌, arith, if◌then◌else◌, Option-cases,
}
use torrents.Go.Exec.{Result, ok, err, Result-cases}
use torrents.Database.Defs.{Row, Env, Hash}
use torrents.Database.Torrents.Table.{row_of, row_of-info_hash}
use torrents.Database.Torrents.Exact.{get_missing}
use torrents.Database.Torrents.Valid.{IsValid, IsClock}
use torrents.Database.Torrents.Order.{IsAlwaysUp}
use torrents.Engine.Path.{FilePath}
use torrents.Engine.Defs.{World, Client}
use torrents.Service.Defs as Service
use torrents.Service.Defs.{Torrent, TorrentEngine, TorrentRepository, PieceRepository}
use torrents.Service.Frame.{SparesTable, table, paused_of}
use torrents.Service.Pausing.{pause_lem, resume_lem, failed}
use torrents.Service.Listing.{Finds, Shown, get-Finds}
use torrents.Service.Always.{after_all-IsValid, pause_call, resume_call}
use torrents.Ui.Defs.{
  TorrentService, Request, Response, render, http_error, row_fragment, pause, resume, toggle,
}
use torrents.Ui.Wiring.{torrent_pages}
use torrents.Ui.Labels.{torrent_status_kind}

-- The answers to the torrent of a hash, in the state that they leave.
module _ {C T M : Type 0} (env : Env) (client : Client (World C) T M) (h : String)
    (w : World C) where
  -- The row of the torrent that the table has for the hash, with the client's live state over it, the
  -- given flag, and the dot of a paused torrent if the flag is set.
  abbrev pub RowShows : Bool → Response → Type 0
  RowShows paused answer =
      (t : Torrent) × (r : Row) × (answer ≡ render 200 (row_fragment t))
      × (row_of h (table w) ≡ some r)
      × (t.info_hash ≡ h)
      × Shown env client w r t
      × (t.paused ≡ paused)
      × ((torrent_status_kind t == "paused") ≡ paused)

  abbrev pub PauseAnswers : Option Bool → Response → Type 0
  PauseAnswers none answer = answer ≡ http_error "failed to toggle torrent" 500
  PauseAnswers (some b) answer = RowShows true answer

  abbrev pub ResumeAnswers : {A : Type 0} → Result A → Response → Type 0
  ResumeAnswers (err e) answer = answer ≡ http_error "failed to toggle torrent" 500
  ResumeAnswers (ok a) answer = RowShows false answer

kind_of :
    (p z c b : Bool)
    → p ≡ b
    → ((if p then "paused" else if z then "pending" else if c then "seeding" else "downloading")
        == "paused")
      ≡ b
kind_of true z c b e = e
kind_of false true c b e = e
kind_of false false true b e = e
kind_of false false false b e = e

kind_lem : (t : Torrent) (b : Bool) → t.paused ≡ b → (torrent_status_kind t == "paused") ≡ b
unfolding torrent_status_kind
kind_lem t b e = kind_of t.paused (eqb t.length 0) (leb t.length t.bytes_completed) b e

module _ {C T M : Type 0} (env : Env) (client : Client (World C) T M) (data_dir : FilePath)
    (up : IsAlwaysUp env) (clock : IsClock env) (spares : SparesTable client) where
  abbrev pages : TorrentService (World C)
  pages = torrent_pages env client data_dir

  -- Reading a torrent back.
  pub get_shows :
      (h : String) (w : World C) (b : Bool)
      → IsValid (table w)
      → paused_of h w ≡ some b
      → let (res, w') = pages.get h w in
        (t : Torrent) × (r : Row) × (res ≡ ok t)
        × (row_of h (table w') ≡ some r)
        × (t.info_hash ≡ h)
        × Shown env client w' r t
        × (t.paused ≡ b)
  get_shows h w b v e =
      let (finds, kept) = get-Finds env client data_dir up h w v in
      elim (Option-cases (row_of h (table w))) [
        | inl gone ↦ absurd (ground (arith, e, gone))
        | inr (r, there) ↦
            let (t, found, shown) =
              subst (λ o. Finds env client (pages.get h w).1 o (pages.get h w).0) there finds in
            (
              t,
              r,
              found,
              ap (row_of h) kept ∙ there,
              shown.0 ∙ row_of-info_hash h (table w) there,
              shown,
              shown.4 ∙ ground (arith, e, there),
            )
      ]

  toggled :
      (action : String → World C → Result (Unit {0}) × World C) (r : Request) (w : World C)
      (t : Torrent)
      → (action r.hash w).0 ≡ ok tt
      → (pages.get r.hash (action r.hash w).1).0 ≡ ok t
      → toggle pages action r w
        ≡ (render 200 (row_fragment t), (pages.get r.hash (action r.hash w).1).1)
  unfolding toggle
  toggled action r w t done found = ground (arith, done, found)

  toggle_shows :
      (action : String → World C → Result (Unit {0}) × World C) (r : Request) (w : World C)
      (b : Bool)
      → (action r.hash w).0 ≡ ok tt
      → IsValid (table (action r.hash w).1)
      → paused_of r.hash (action r.hash w).1 ≡ some b
      → let (answer, w') = toggle pages action r w in RowShows env client r.hash w' b answer
  unfolding toggle
  toggle_shows action r w b done v e =
      let w' = (action r.hash w).1 in
      let (t, row, found, there, hash, shown, flag) = get_shows r.hash w' b v e in
      rw (toggled action r w t done found)
        (t, row, refl, there, hash, shown, flag, kind_lem t b flag)

  toggle_fails :
      (action : String → World C → Result (Unit {0}) × World C) (r : Request) (w : World C)
      → failed (action r.hash w).0 ≡ true
      → (toggle pages action r w).0 ≡ http_error "failed to toggle torrent" 500
  unfolding toggle
  toggle_fails action r w e = ground (arith, e)

  pause_answers :
      (r : Request) (w : World C) {k : Hash}
      → env.from_hex_string r.hash ≡ ok k
      → IsValid (table w)
      → let (answer, w') = pause pages r w in
        PauseAnswers env client r.hash w' (paused_of r.hash w) answer
  unfolding pause
  pause_answers r w parsed v =
      let (done, flag) = pause_lem env client data_dir up spares r.hash w r.hash parsed in
      let valid = after_all-IsValid env client data_dir clock spares (pause_call r.hash ∷ []) w v in
      elim (Option-cases (paused_of r.hash w)) [
        | inl gone ↦ rw gone (toggle_fails pages.pause r w (ground (arith, done, gone)))
        | inr (b, there) ↦ rw there (
            toggle_shows pages.pause r w true (ground (arith, done, there)) valid
              (flag ∙ rw (eq_refl r.hash) (ground (arith, there))))
      ]

  resume_gone :
      (h : String) (w : World C) → row_of h (table w) ≡ none → failed (pages.resume h w).0 ≡ true
  unfolding Service.resume Service.load_error
  resume_gone h w gone = ground (arith, get_missing env h w.store (up w.store.calls) gone)

  resume_answers :
      (r : Request) (w : World C)
      → IsValid (table w)
      → let (answer, w') = resume pages r w in
        ResumeAnswers env client r.hash w' (pages.resume r.hash w).0 answer
  unfolding resume
  resume_answers r w v =
      let flag = resume_lem env client data_dir up spares r.hash w r.hash v in
      let valid =
        after_all-IsValid env client data_dir clock spares (resume_call r.hash ∷ []) w v in
      elim (Result-cases (pages.resume r.hash w).0) [
        | inr (e, refused) ↦ rw refused (toggle_fails pages.resume r w (ground (arith, refused)))
        | inl (u, done) ↦ elim (Option-cases (row_of r.hash (table w))) [
          | inl gone ↦ absurd (ground (arith, done, resume_gone r.hash w gone))
          | inr (row, there) ↦ rw done (
              toggle_shows pages.resume r w false (done) valid
                (flag ∙ rw (eq_refl r.hash) (ground (arith, there, done))))
        ]
      ]

  -- Reading the torrent back changes no flag.
  get_flag :
      (h : String) (w : World C) (j : String)
      → IsValid (table w)
      → paused_of j (pages.get h w).1 ≡ paused_of j w
  get_flag h w j v =
      ap (λ rows. Option.map (λ (r : Row). r.is_paused) (row_of j rows))
        (get-Finds env client data_dir up h w v).1

  toggle_flag :
      (action : String → World C → Result (Unit {0}) × World C) (r : Request) (w : World C)
      (j : String)
      → IsValid (table (action r.hash w).1)
      → paused_of j (toggle pages action r w).1 ≡ paused_of j (action r.hash w).1
  unfolding toggle
  toggle_flag action r w j v = elim (Result-cases (action r.hash w).0) [
    | inr (e, refused) ↦ ground (arith, refused)
    | inl (u, done) ↦
        let w' = (action r.hash w).1 in
        elim (Result-cases (pages.get r.hash w').0) [
          | inr (e, lost) ↦ ground (arith, done, lost, get_flag r.hash w' j v)
          | inl (t, found) ↦ ground (arith, done, found, get_flag r.hash w' j v)
        ]
  ]

  pub toggled_flags :
      (r : Request) (w : World C) (j : String)
      → IsValid (table w)
      → (paused_of j (pause pages r w).1 ≡ paused_of j (pages.pause r.hash w).1)
        × (paused_of j (resume pages r w).1 ≡ paused_of j (pages.resume r.hash w).1)
  unfolding pause resume
  toggled_flags r w j v = (
    toggle_flag pages.pause r w j
        (after_all-IsValid env client data_dir clock spares (pause_call r.hash ∷ []) w v),
    toggle_flag pages.resume r w j
        (after_all-IsValid env client data_dir clock spares (resume_call r.hash ∷ []) w v),
  )

  -- With no database call failing, a clock that keeps nanoseconds below a second, a client that
  -- spares the table `torrent`, a valid table and a hash that parses: `Pause` of a managed torrent
  -- renders its row, flagged and with the dot of a paused torrent, and fails for any other; `Resume`
  -- renders the row, without the flag and with another dot, exactly where the service resumed the
  -- torrent, and fails otherwise.
  pub pause-PauseAnswers :
      (r : Request) (w : World C) {k : Hash}
      → env.from_hex_string r.hash ≡ ok k
      → IsValid (table w)
      → let (p, w1) = pause pages r w in
        let (q, w2) = resume pages r w in
        PauseAnswers env client r.hash w1 (paused_of r.hash w) p
        × ResumeAnswers env client r.hash w2 (pages.resume r.hash w).0 q
  pause-PauseAnswers r w parsed v = (pause_answers r w parsed v, resume_answers r w v)
