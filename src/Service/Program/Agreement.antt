-- ===== src/Service/Program/Agreement.antt =====
-- A request that is alone does what the method does.
use torrents.Prelude.{
  String, Bool, true, false, ◌≡◌, refl, sym, ap, ◌∙◌, ◌==◌, arith, inl, inr, if◌then◌else◌,
  Bool-cases,
}
use torrents.Go.Errors.{Error}
use torrents.Go.Exec.{Result, ok, err, Exec, or_else, raise, Result-cases}
use torrents.Database.Defs.{Torrent as DbTorrent}
use torrents.Service.Defs as Service
use torrents.Service.Defs.{TorrentEngine, TorrentRepository, PieceRepository, AddOptions, Torrent}
use torrents.Service.Program.{row_get, row_create, Program, reply, ask, attempt, perform, run_alone}
use torrents.Service.Program.Methods as Methods
use torrents.Service.Program.Methods.{failing}

module _ {S : Type 0} (engine : TorrentEngine S) (torrents : TorrentRepository S)
    (pieces : PieceRepository S) where
  abbrev alone : {A : Type 0} → Program A → Exec S A
  alone p = run_alone engine torrents pieces p

  abbrev pub Agrees : {A : Type 0} → Program A → Exec S A → Type 0
  Agrees p m = (s : S) → alone p s ≡ m s

  run_alone-attempt :
      {A B : Type 0} (p : Program A) (f : Error → Program B) (k : A → Program B) (s : S)
      → alone (attempt p f k) s ≡ or_else (alone p) (λ e. alone (f e)) (λ a. alone (k a)) s
  run_alone-attempt (reply (ok a)) f k s = refl
  run_alone-attempt (reply (err e)) f k s = refl
  run_alone-attempt (ask op c) f k s =
      let (a, s') = perform engine torrents pieces op s in run_alone-attempt (c a) f k s'

  abbrev branch : {A B : Type 0} → (Error → Exec S B) → (A → Exec S B) → Result A × S → Result B × S
  branch f k (ok a, s) = k a s
  branch f k (err e, s) = f e s

  or_else-branch :
      {A B : Type 0} (f : Error → Exec S B) (k : A → Exec S B) (r : Result A × S)
      → or_else (λ (s : S). r) f k r.1 ≡ branch f k r
  or_else-branch f k (ok a, s) = refl
  or_else-branch f k (err e, s) = refl

  branch_ext :
      {A B : Type 0} (f g : Error → Exec S B) (k l : A → Exec S B) (r : Result A × S)
      → ((e : Error) (s : S) → f e s ≡ g e s)
      → ((a : A) (s : S) → k a s ≡ l a s)
      → branch f k r ≡ branch g l r
  branch_ext f g k l (ok a, s) h i = i a s
  branch_ext f g k l (err e, s) h i = h e s

  pub attempt-Agrees :
      {A B : Type 0} (p : Program A) (m : Exec S A) (f : Error → Program B) (g : Error → Exec S B)
      (k : A → Program B) (l : A → Exec S B)
      → Agrees p m
      → ((e : Error) → Agrees (f e) (g e))
      → ((a : A) → Agrees (k a) (l a))
      → Agrees (attempt p f k) (or_else m g l)
  attempt-Agrees p m f g k l h i j s =
      run_alone-attempt p f k s
      ∙ or_else-branch (λ e. alone (f e)) (λ a. alone (k a)) (alone p s)
      ∙ ap (branch (λ e. alone (f e)) (λ a. alone (k a))) (h s)
      ∙ branch_ext (λ e. alone (f e)) g (λ a. alone (k a)) l (m s) i j
      ∙ sym (or_else-branch g l (m s))

  pub if-Agrees :
      {A : Type 0} (b : Bool) (p q : Program A) (m n : Exec S A)
      → Agrees p m
      → Agrees q n
      → Agrees (if b then p else q) (if b then m else n)
  if-Agrees true p q m n h i = h
  if-Agrees false p q m n h i = i

  pub metadata-Agrees :
      (h : String)
      → Agrees
          (Methods.persist_metadata h)
          (λ s. (ok tt, Service.persist_metadata engine torrents pieces h s))
  unfolding Methods.persist_metadata Service.persist_metadata
  metadata-Agrees h s = elim (Result-cases (engine.snapshot h s).0) [
    | inr (e, x) ↦ ground (arith, x)
    | inl (progress, x) ↦ elim (Bool-cases (progress.name == "")) [
      | inl empty ↦ ground (arith, x, empty)
      | inr named ↦ ground (arith, x, named)
    ]
  ]

  pub bytes-Agrees :
      (h : String)
      → Agrees
          (Methods.persist_bytes_completed h)
          (λ s. (ok tt, Service.persist_bytes_completed engine torrents pieces h s))
  unfolding Methods.persist_bytes_completed Service.persist_bytes_completed
  bytes-Agrees h s = elim (Result-cases (engine.snapshot h s).0) [
    | inr (e, x) ↦ ground (arith, x)
    | inl (progress, x) ↦ ground (arith, x)
  ]

  pub hydrate-Agrees :
      (row : DbTorrent)
      → Agrees
          (Methods.hydrate row)
          (λ s. let (t, s') = Service.hydrate engine torrents pieces row s in (ok t, s'))
  unfolding Methods.hydrate Service.hydrate
  hydrate-Agrees row s = elim (Result-cases (engine.snapshot row.info_hash s).0) [
    | inr (e, x) ↦ ground (arith, x)
    | inl (progress, x) ↦ ground (arith, x)
  ]

  pub complete-Agrees :
      (row : DbTorrent)
      → Agrees
          (Methods.is_complete row)
          (λ s. let (b, s') = Service.is_complete engine torrents pieces row s in (ok b, s'))
  unfolding Methods.is_complete Service.is_complete
  complete-Agrees row s = elim (Result-cases (engine.snapshot row.info_hash s).0) [
    | inr (e, x) ↦ ground (arith, x)
    | inl (progress, x) ↦ ground (arith, x)
  ]

  pub get-Agrees : (h : String) → Agrees (Methods.get h) (Service.get engine torrents pieces h)
  unfolding Methods.get Service.get
  get-Agrees h =
      attempt-Agrees (ask (row_get h) reply) (torrents.get h) _ _ Methods.hydrate _ (λ s. refl)
        (λ e s. refl) hydrate-Agrees

  pub persist-Agrees :
      (h magnet : String) (opts : AddOptions)
      → Agrees
          (Methods.persist h magnet opts)
          (Service.persist engine torrents pieces h magnet opts)
  unfolding Methods.persist Service.persist
  persist-Agrees h magnet opts =
      attempt-Agrees (ask (row_create _) reply) (torrents.create _) _ _ _ _ (λ s. refl)
        (λ e s. refl)
        (λ _.
          attempt-Agrees (Methods.persist_metadata h)
            (λ s. (ok tt, Service.persist_metadata engine torrents pieces h s)) failing raise
            (λ _. Methods.get h) (λ _. Service.get engine torrents pieces h) (metadata-Agrees h)
            (λ e s. refl) (λ _. get-Agrees h))
