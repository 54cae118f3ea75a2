-- ===== src/Service/Program/Races.antt =====
-- `Pause` and `Resume` of one torrent together.
use mathlib.Core.Path.{subst}
use torrents.Prelude.{String, true, false, ◌≡◌, refl, ap, sym, ◌∙◌, [], ◌∷◌, arith}
use torrents.Go.Errors.{Error}
use torrents.Go.Exec.{Result, ok, err}
use torrents.Service.Defs.{TorrentEngine, TorrentRepository, PieceRepository}
use torrents.Service.Defs as Service
use torrents.Service.Always.{pause_call, resume_call}
use torrents.Service.Program.{row_set_paused, Program, reply, ask, attempt, perform, run_alone}
use torrents.Service.Program.Methods as Methods
use torrents.Service.Program.Methods.{failing}
use torrents.Service.Program.Agreement.{bytes-Agrees}
use torrents.Service.Program.Equals.{remove_from_engine-Agrees}
use torrents.Service.Program.Requests.{Reply, done_reply, request, run_alone-request}
use torrents.Service.Program.Pool.{Pool, begin, Runs, stop, turn}

-- A call after a call whose error is tested.
attempt-attempt :
    {A B C : Type 0} (p : Program A) (f : Error → Program B) (k : A → Program B)
    (g : Error → Program C) (l : B → Program C)
    → attempt (attempt p f k) g l ≡ attempt p (λ e. attempt (f e) g l) (λ a. attempt (k a) g l)
attempt-attempt (reply (ok a)) f k g l = refl
attempt-attempt (reply (err e)) f k g l = refl
attempt-attempt (ask op c) f k g l = λ i. ask op (λ r. attempt-attempt (c r) f k g l i)

-- The last call of a pause, and what comes before it.
abbrev flagging : String → Program (Unit {0})
flagging h =
    attempt (ask (row_set_paused h true) reply)
      (λ e. failing (Service.load_error "failed to persist torrent state" e)) (λ _. reply (ok tt))

abbrev last_call : String → Program Reply
last_call h = attempt (flagging h) failing (λ _. reply (ok done_reply))

request-pause :
    (h : String)
    → request (pause_call h)
      ≡ attempt
          (Methods.persist_bytes_completed h)
          failing
          (λ _. attempt (Methods.remove_from_engine h false) failing (λ _. last_call h))
unfolding Methods.pause
request-pause h =
    attempt-attempt (Methods.persist_bytes_completed h) failing _ failing
      (λ _. reply (ok done_reply))
    ∙ ap (attempt (Methods.persist_bytes_completed h) failing) (λ i u.
      attempt-attempt (Methods.remove_from_engine h false) failing (λ _. flagging h) failing
        (λ _. reply (ok done_reply)) i)

module _ {S : Type 0} (engine : TorrentEngine S) (torrents : TorrentRepository S)
    (pieces : PieceRepository S) where
  -- Two requests, the first behind a call that has returned.
  abbrev continued :
      {A : Type 0}
      → (Error → Program Reply)
      → (A → Program Reply)
      → Program Reply
      → Result A × S
      → Pool × S
  continued f k x (ok a, s) = (k a ∷ x ∷ [], s)
  continued f k x (err e, s) = (f e ∷ x ∷ [], s)

  -- Of two requests, the first makes its calls up to the end of p.
  first_advances :
      {A : Type 0} (p : Program A) (f : Error → Program Reply) (k : A → Program Reply)
      (x : Program Reply) (s : S) {d : Pool × S}
      → Runs engine torrents pieces (continued f k x (run_alone engine torrents pieces p s)) d
      → Runs engine torrents pieces (attempt p f k ∷ x ∷ [], s) d
  first_advances (reply (ok a)) f k x s h = h
  first_advances (reply (err e)) f k x s h = h
  first_advances (ask op c) f k x s h =
      let (b, t) = perform engine torrents pieces op s in turn 0 (first_advances (c b) f k x t h)

  first_advances_to :
      {A : Type 0} (p : Program A) (f : Error → Program Reply) (k : A → Program Reply)
      (x : Program Reply) (s : S) {r : Result A × S} {d : Pool × S}
      → run_alone engine torrents pieces p s ≡ r
      → Runs engine torrents pieces (continued f k x r) d
      → Runs engine torrents pieces (attempt p f k ∷ x ∷ [], s) d
  first_advances_to p f k x s {r} {d} e h = first_advances p f k x s (
      subst (λ c. Runs engine torrents pieces (continued f k x c) d) {x = r}
        {y = run_alone engine torrents pieces p s} (sym e) h)

  -- The second makes all of its calls.
  second_finishes :
      (p x : Program Reply) (s : S) {d : Pool × S}
      → let (r, s') = run_alone engine torrents pieces p s in
        Runs engine torrents pieces (x ∷ reply r ∷ [], s') d
        → Runs engine torrents pieces (x ∷ p ∷ [], s) d
  second_finishes (reply r) x s h = h
  second_finishes (ask op c) x s h =
      let (b, t) = perform engine torrents pieces op s in turn 1 (second_finishes (c b) x t h)

  resumed :
      (h : String) (s s' : S)
      → Service.resume engine torrents pieces h s ≡ (ok tt, s')
      → run_alone engine torrents pieces (request (resume_call h)) s ≡ (ok done_reply, s')
  resumed h s s' e = run_alone-request engine torrents pieces (resume_call h) s ∙ ground (arith, e)

  abbrev replied : Pool
  replied = reply (ok done_reply) ∷ reply (ok done_reply) ∷ []

  last_finishes :
      (h : String) (s s' : S)
      → torrents.set_paused h true s ≡ (ok tt, s')
      → Runs engine torrents pieces (last_call h ∷ reply (ok done_reply) ∷ [], s) (replied, s')
  last_finishes h s s' e = turn 0 (
      subst
        (λ c.
          Runs engine torrents pieces
            (
              attempt
                    (attempt (reply c.0)
                      (λ e. failing (Service.load_error "failed to persist torrent state" e))
                      (λ _. reply (ok tt)))
                    failing (λ _. reply (ok done_reply))
                  ∷ reply (ok done_reply)
                  ∷ [],
              c.1,
            )
            (replied, s'))
        {x = (ok tt, s')} {y = torrents.set_paused h true s} (sym e) stop)

  -- The resume comes as a whole between the engine call and the last call of the pause.
  pub between :
      (h : String) (s s1 s2 s3 s4 : S)
      → s1 ≡ Service.persist_bytes_completed engine torrents pieces h s
      → Service.remove_from_engine engine torrents pieces h false s1 ≡ (ok tt, s2)
      → Service.resume engine torrents pieces h s2 ≡ (ok tt, s3)
      → torrents.set_paused h true s3 ≡ (ok tt, s4)
      → Runs engine torrents pieces
          (begin (pause_call h ∷ resume_call h ∷ []), s)
          (reply (ok done_reply) ∷ reply (ok done_reply) ∷ [], s4)
  between h s s1 s2 s3 s4 e1 e2 e3 e4 =
      let x = request (resume_call h) in
      subst (λ p. Runs engine torrents pieces (p ∷ x ∷ [], s) (replied, s4))
        {y = request (pause_call h)} (sym (request-pause h))
        (first_advances_to (Methods.persist_bytes_completed h) failing _ x s
          (bytes-Agrees engine torrents pieces h s ∙ ap (λ t. (ok tt, t)) (sym e1))
          (first_advances_to (Methods.remove_from_engine h false) failing _ x s1
            (remove_from_engine-Agrees engine torrents pieces h false s1 ∙ e2)
            (second_finishes x (last_call h) s2 (
              subst
                (λ (c : Result Reply × S).
                  Runs engine torrents pieces (last_call h ∷ reply c.0 ∷ [], c.1) (replied, s4))
                {y = run_alone engine torrents pieces x s2} (sym (resumed h s2 s3 e3))
                (last_finishes h s3 s4 e4)))))
