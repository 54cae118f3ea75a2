-- ===== src/Service/Invariant.antt =====
-- What all calls below the service keep, its methods keep: an invariant of the state is shown once
-- for each call of the interfaces.
use torrents.Prelude.{ℕ, String, Bool, true, false, List, [], ◌∷◌, ◌==◌, if◌then◌else◌, inl, inr}
use torrents.Go.Errors.{Error, Sentinel, is}
use torrents.Go.Exec.{Result, ok, err, Exec, or_else, pure, raise, Result-cases}
use torrents.Database.Defs.{Torrent as DbTorrent}
use torrents.Engine.Defs.{Progress}
use torrents.Service.Defs.{
  AddOptions, TorrentEngine, TorrentRepository, PieceRepository, persist_metadata,
  persist_bytes_completed, hydrate, hydrate_all, persist, add_magnet, add_file, get, files, list,
  is_complete, remove_from_engine, remove, pause, resume,
}

-- A call that leaves the state in the invariant, whatever it returns.
abbrev pub Preserves : {S A : Type 0} → (S → Type 0) → Exec S A → Type 0
Preserves {S = S} P m = (s : S) → P s → P (m s).1

-- The laws: each call of the interfaces keeps the invariant.
pub record IsKept {S : Type 0} (engine : TorrentEngine S) (torrents : TorrentRepository S)
    (pieces : PieceRepository S) (P : S → Type 0) : Type 0 where
  pub add_magnet : (uri : String) → Preserves P (engine.add_magnet uri)
  pub add_file : (file : String) → Preserves P (engine.add_file file)
  pub remove : (h : String) (d : Bool) → Preserves P (engine.remove h d)
  pub snapshot : (h : String) → Preserves P (engine.snapshot h)
  pub files : (h : String) → Preserves P (engine.files h)
  pub create : (t : DbTorrent) → Preserves P (torrents.create t)
  pub get : (h : String) → Preserves P (torrents.get h)
  pub list : Preserves P torrents.list
  pub delete : (h : String) → Preserves P (torrents.delete h)
  pub set_metadata : (h name : String) (n : ℕ) → Preserves P (torrents.set_metadata h name n)
  pub set_bytes_completed : (h : String) (n : ℕ) → Preserves P (torrents.set_bytes_completed h n)
  pub set_paused : (h : String) (b : Bool) → Preserves P (torrents.set_paused h b)
  pub forget : (h : String) (s : S) → P s → P (pieces.forget h s)

module _ {S : Type 0} (P : S → Type 0) where
  module _ {A B : Type 0} (m : Exec S A) (f : Error → Exec S B) (k : A → Exec S B) where
    branch_keeps :
        (r : Result A) (s : S)
        → ((e : Error) → Preserves P (f e))
        → ((a : A) → Preserves P (k a))
        → P s
        → P ((elim r as (λ _. Exec S B) [ ok a ↦ k a | err e ↦ f e ]) s).1
    branch_keeps (ok a) s g h p = h a s p
    branch_keeps (err e) s g h p = g e s p

    pub or_else_keeps :
        Preserves P m
        → ((e : Error) → Preserves P (f e))
        → ((a : A) → Preserves P (k a))
        → Preserves P (or_else m f k)
    or_else_keeps l g h s p = branch_keeps (m s).0 (m s).1 g h (l s p)

  pub if_else_keeps :
      {A : Type 0} (b : Bool) (m n : Exec S A)
      → Preserves P m
      → Preserves P n
      → Preserves P (if b then m else n)
  if_else_keeps true m n p q = p
  if_else_keeps false m n p q = q

  pub if_keeps : (b : Bool) {s t : S} → P s → P t → P (if b then s else t)
  if_keeps true p q = p
  if_keeps false p q = q

module _ {S : Type 0} (engine : TorrentEngine S) (torrents : TorrentRepository S)
    (pieces : PieceRepository S) (P : S → Type 0) (kept : IsKept engine torrents pieces P) where
  metadata_keeps : (h : String) (s : S) → P s → P (persist_metadata engine torrents pieces h s)
  unfolding persist_metadata
  metadata_keeps h s p = go (engine.snapshot h s).0 (engine.snapshot h s).1 (kept.snapshot h s p)
    where
      go :
          (r : Result Progress) (s' : S)
          → P s'
          → P (elim r [
            | err e ↦ s'
            | ok progress ↦
                if progress.name == ""
                then s'
                else (torrents.set_metadata h progress.name progress.length s').1
          ])
      go (err e) s' q = q
      go (ok progress) s' q =
          if_keeps P (progress.name == "") q
            (kept.set_metadata h progress.name progress.length s' q)

  pub bytes_keeps :
      (h : String) (s : S) → P s → P (persist_bytes_completed engine torrents pieces h s)
  unfolding persist_bytes_completed
  bytes_keeps h s p = go (engine.snapshot h s).0 (engine.snapshot h s).1 (kept.snapshot h s p)
    where
      go :
          (r : Result Progress) (s' : S)
          → P s'
          → P (elim r [
            | err e ↦ s'
            | ok progress ↦ (torrents.set_bytes_completed h progress.bytes_completed s').1
          ])
      go (err e) s' q = q
      go (ok progress) s' q = kept.set_bytes_completed h progress.bytes_completed s' q

  hydrate_keeps : (row : DbTorrent) (s : S) → P s → P (hydrate engine torrents pieces row s).1
  unfolding hydrate
  hydrate_keeps row s p = elim (Result-cases (engine.snapshot row.info_hash s).0) [
    | inl (progress, x) ↦ rw (x, hydrate) (kept.snapshot row.info_hash s p)
    | inr (e, x) ↦ rw (x, hydrate) (kept.snapshot row.info_hash s p)
  ]

  complete_keeps : (row : DbTorrent) (s : S) → P s → P (is_complete engine torrents pieces row s).1
  unfolding is_complete
  complete_keeps row s p = elim (Result-cases (engine.snapshot row.info_hash s).0) [
    | inl (progress, x) ↦ rw (x, is_complete) (kept.snapshot row.info_hash s p)
    | inr (e, x) ↦ rw (x, is_complete) (kept.snapshot row.info_hash s p)
  ]

  hydrate_all_keeps :
      (rows : List DbTorrent) → Preserves P (hydrate_all engine torrents pieces rows)
  unfolding hydrate_all
  hydrate_all_keeps [] s p = p
  hydrate_all_keeps (row ∷ rows) s p =
      or_else_keeps P (hydrate_all engine torrents pieces rows) raise _ (hydrate_all_keeps rows)
        (λ e s' q. q) (λ ts s' q. q) (hydrate engine torrents pieces row s).1
        (hydrate_keeps row s p)

  pub get_keeps : (h : String) → Preserves P (get engine torrents pieces h)
  unfolding get
  get_keeps h =
      or_else_keeps P (torrents.get h) _ _ (kept.get h) (λ e s p. p)
        (λ row s p. hydrate_keeps row s p)

  persist_keeps :
      (h magnet : String) (opts : AddOptions)
      → Preserves P (persist engine torrents pieces h magnet opts)
  unfolding persist
  persist_keeps h magnet opts =
      or_else_keeps P _ _ _ (kept.create _) (λ e s p. p)
        (λ _ s p. get_keeps h (persist_metadata engine torrents pieces h s) (metadata_keeps h s p))

  pub remove_from_engine_keeps :
      (h : String) (d : Bool) → Preserves P (remove_from_engine engine torrents pieces h d)
  unfolding remove_from_engine
  remove_from_engine_keeps h d =
      or_else_keeps P (engine.remove h d) _ pure (kept.remove h d)
        (λ e. if_else_keeps P (is e Sentinel.engine_not_found) _ _ (λ s p. p) (λ s p. p))
        (λ _ s p. p)

  pub add_magnet_keeps :
      (uri : String) (opts : AddOptions) → Preserves P (add_magnet engine torrents pieces uri opts)
  unfolding add_magnet
  add_magnet_keeps uri opts =
      or_else_keeps P (engine.add_magnet uri) _ _ (kept.add_magnet uri) (λ e s p. p)
        (λ h. persist_keeps h uri opts)

  pub add_file_keeps :
      (file : String) (opts : AddOptions) → Preserves P (add_file engine torrents pieces file opts)
  unfolding add_file
  add_file_keeps file opts =
      or_else_keeps P (engine.add_file file) _ _ (kept.add_file file) (λ e s p. p)
        (λ h. persist_keeps h _ opts)

  pub files_keeps : (h : String) → Preserves P (files engine torrents pieces h)
  unfolding files
  files_keeps h =
      or_else_keeps P (torrents.get h) _ _ (kept.get h) (λ e s p. p)
        (λ _. or_else_keeps P (engine.files h) _ _ (kept.files h) (λ e s p. p) (λ fp s p. p))

  pub list_keeps : Preserves P (list engine torrents pieces)
  unfolding list
  list_keeps = or_else_keeps P torrents.list _ _ kept.list (λ e s p. p) hydrate_all_keeps

  pub remove_keeps : (h : String) (d : Bool) → Preserves P (remove engine torrents pieces h d)
  unfolding remove
  remove_keeps h d =
      or_else_keeps P (torrents.get h) _ _ (kept.get h) (λ e s p. p)
        (λ row s p.
          or_else_keeps P (remove_from_engine engine torrents pieces h _) raise _
            (remove_from_engine_keeps h _) (λ e s' q. q)
            (λ _.
              or_else_keeps P (torrents.delete h) _ _ (kept.delete h) (λ e s' q. q)
                (λ _ s' q. kept.forget h s' q))
            (is_complete engine torrents pieces row s).1 (complete_keeps row s p))

  pub pause_keeps : (h : String) → Preserves P (pause engine torrents pieces h)
  unfolding pause
  pause_keeps h s p =
      or_else_keeps P (remove_from_engine engine torrents pieces h false) raise _
        (remove_from_engine_keeps h false) (λ e s' q. q)
        (λ _.
          or_else_keeps P (torrents.set_paused h true) _ pure (kept.set_paused h true) (λ e s' q. q)
            (λ _ s' q. q))
        (persist_bytes_completed engine torrents pieces h s) (bytes_keeps h s p)

  pub resume_keeps : (h : String) → Preserves P (resume engine torrents pieces h)
  unfolding resume
  resume_keeps h =
      or_else_keeps P (torrents.get h) _ _ (kept.get h) (λ e s p. p)
        (λ row.
          or_else_keeps P (torrents.set_paused h false) _ _ (kept.set_paused h false) (λ e s p. p)
            (λ _.
              or_else_keeps P (engine.add_magnet row.magnet) _ _ (kept.add_magnet row.magnet)
                (λ e s p. kept.set_paused h true s p) (λ hash s p. metadata_keeps hash s p)))
