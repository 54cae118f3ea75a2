-- ===== src/Api/Panics.antt =====
-- What the client gets and what is logged, for a handler that returns and for one that panics.
use torrents.Prelude.{ℕ, String, ◌≡◌, refl, ap, ◌∙◌, Option, none, some, List, [], ◌∷◌, ◌++◌, arith}
use torrents.Api.Middleware.{
  Act, set_content_type, write_header, write, Ending, returned, panicked, Writer, send_header, act,
  act_all, internal_error, recovery, logging, wrapped, client_status,
}

-- The status that a handler sends: that of its first `WriteHeader`, or 200 if it writes before it.
abbrev pub sends : List Act → Option ℕ
sends [] = none
sends (set_content_type t ∷ acts) = sends acts
sends (write_header status ∷ acts) = some status
sends (write c ∷ acts) = some 200

-- The status of the last `WriteHeader`.
abbrev pub last_header : ℕ → List Act → ℕ
last_header status [] = status
last_header status (set_content_type t ∷ acts) = last_header status acts
last_header status (write_header n ∷ acts) = last_header n acts
last_header status (write c ∷ acts) = last_header status acts

act_all-append : (xs ys : List Act) (w : Writer) → act_all (xs ++ ys) w ≡ act_all ys (act_all xs w)
unfolding act_all
act_all-append [] ys w = refl
act_all-append (x ∷ xs) ys w = act_all-append xs ys (act x w)

act_all-recorded :
    (acts : List Act) (w : Writer) → (act_all acts w).recorded ≡ last_header w.recorded acts
unfolding act_all act
act_all-recorded [] w = refl
act_all-recorded (set_content_type t ∷ acts) w = act_all-recorded acts _
act_all-recorded (write_header n ∷ acts) w = act_all-recorded acts _
act_all-recorded (write c ∷ acts) w = act_all-recorded acts _

-- A status that is sent stays.
act_all-sent :
    (acts : List Act) (w : Writer) {s : ℕ × String}
    → w.sent ≡ some s
    → (act_all acts w).sent ≡ some s
unfolding act_all act send_header
act_all-sent [] w e = e
act_all-sent (set_content_type t ∷ acts) w e = act_all-sent acts _ e
act_all-sent (write_header n ∷ acts) w e = act_all-sent acts _ (rw e refl)
act_all-sent (write c ∷ acts) w e = act_all-sent acts _ (rw e refl)

-- The status that the client gets, `status` if nothing is sent.
abbrev status_or : ℕ → Writer → ℕ
status_or status w = elim w.sent [ none ↦ status | some s ↦ s.0 ]

act_all-sends :
    (status : ℕ) (acts : List Act) (w : Writer)
    → w.sent ≡ none
    → status_or status (act_all acts w) ≡ elim (sends acts) [ none ↦ status | some n ↦ n ]
unfolding act_all act send_header
act_all-sends status [] w e = rw e refl
act_all-sends status (set_content_type t ∷ acts) w e = act_all-sends status acts _ e
act_all-sends status (write_header n ∷ acts) w e =
    rw (act_all-sent acts (act (write_header n) w) {s = (n, w.header)} (rw e refl)) refl
act_all-sends status (write c ∷ acts) w e =
    rw (act_all-sent acts (act (write c) w) {s = (200, w.header)} (rw e refl)) refl

internal_error-recorded : (w : Writer) → (act_all internal_error w).recorded ≡ 500
unfolding act_all act
internal_error-recorded w = refl

internal_error-client : (w : Writer) → client_status (act_all internal_error w) ≡ status_or 500 w
unfolding act_all act send_header
internal_error-client w = ground arith

-- Whatever a handler writes and however it ends, the request is answered and logged. The client gets
-- the status that the handler sent first; where it sent none, 200 if it returned and 500 if it
-- panicked. The log has the last status that the handler asked for, 200 if none, or 500 if it
-- panicked: after a panic behind a sent header the two differ.
pub wrapped_lem :
    (acts : List Act) (ending : Ending)
    → let (w, log) = wrapped (acts, ending) in
      (client_status w
        ≡ elim (sends acts) [ some n ↦ n | none ↦ elim ending [ returned ↦ 200 | panicked ↦ 500 ] ])
      × (log ≡ some (elim ending [ returned ↦ last_header 200 acts | panicked ↦ 500 ]))
unfolding wrapped logging recovery
wrapped_lem acts returned =
    let w : Writer = record { header = ""; sent = none; body = []; recorded = 200 } in
    (act_all-sends 200 acts w refl, ap some (act_all-recorded acts w))
wrapped_lem acts panicked =
    let w : Writer = record { header = ""; sent = none; body = []; recorded = 200 } in
    let joined = act_all-append acts internal_error w in
    (
      ap client_status joined
          ∙ internal_error-client (act_all acts w)
          ∙ act_all-sends 500 acts w refl,
      ap (λ (v : Writer). some v.recorded) joined
          ∙ ap some (internal_error-recorded (act_all acts w)),
    )
