-- ===== src/Service/Always.antt =====
-- The table `torrent` stays valid under every method of the service, whatever fails.
use mathlib.Core.Path.{subst}
use torrents.Prelude.{
  String, Bool, ◌≡◌, refl, sym, ap, inl, inr, List, [], ◌∷◌, arith, Option-cases,
}
use torrents.Database.Defs.{Row, Store, Env, call-up, call-down, tick}
use torrents.Database.Torrents as Rows
use torrents.Database.Torrents.Valid.{
  IsValid, IsClock, run-IsValid, create_stmt, delete_stmt, set_metadata_stmt,
  set_bytes_completed_stmt, set_paused_stmt,
}
use torrents.Database.Pieces as Pieces
use torrents.Engine.Path.{FilePath}
use torrents.Engine.Defs.{World, Client}
use torrents.Service.Defs as Service
use torrents.Service.Defs.{AddOptions, TorrentEngine, TorrentRepository, PieceRepository}
use torrents.Service.Wiring.{torrent_repository, torrent_engine, piece_repository}
use torrents.Service.Frame.{
  table, SparesTable, table-add_magnet, table-add_file, table-remove, state-snapshot, state-files,
}
use torrents.Service.Invariant.{
  IsKept, add_magnet_keeps, add_file_keeps, get_keeps, files_keeps, list_keeps, remove_keeps,
  pause_keeps, resume_keeps,
}

-- A call of a method.
pub data Call : Type 0 where
  add_magnet_call add_file_call : String → AddOptions → Call
  get_call files_call pause_call resume_call : String → Call
  list_call : Call
  remove_call : String → Bool → Call

module _ {S : Type 0} (engine : TorrentEngine S) (torrents : TorrentRepository S)
    (pieces : PieceRepository S) where
  -- The state after a call, whether it succeeds or fails.
  abbrev pub after : Call → S → S
  after (add_magnet_call uri opts) s = (Service.add_magnet engine torrents pieces uri opts s).1
  after (add_file_call file opts) s = (Service.add_file engine torrents pieces file opts s).1
  after (get_call h) s = (Service.get engine torrents pieces h s).1
  after (files_call h) s = (Service.files engine torrents pieces h s).1
  after (pause_call h) s = (Service.pause engine torrents pieces h s).1
  after (resume_call h) s = (Service.resume engine torrents pieces h s).1
  after list_call s = (Service.list engine torrents pieces s).1
  after (remove_call h d) s = (Service.remove engine torrents pieces h d s).1

  abbrev pub after_all : List Call → S → S
  after_all [] s = s
  after_all (c ∷ cs) s = after_all cs (after c s)

  after_keeps :
      (P : S → Type 0) → IsKept engine torrents pieces P → (c : Call) (s : S) → P s → P (after c s)
  after_keeps P k (add_magnet_call uri opts) = add_magnet_keeps engine torrents pieces P k uri opts
  after_keeps P k (add_file_call file opts) = add_file_keeps engine torrents pieces P k file opts
  after_keeps P k (get_call h) = get_keeps engine torrents pieces P k h
  after_keeps P k (files_call h) = files_keeps engine torrents pieces P k h
  after_keeps P k (pause_call h) = pause_keeps engine torrents pieces P k h
  after_keeps P k (resume_call h) = resume_keeps engine torrents pieces P k h
  after_keeps P k list_call = list_keeps engine torrents pieces P k
  after_keeps P k (remove_call h d) = remove_keeps engine torrents pieces P k h d

  after_all_keeps :
      (P : S → Type 0)
      → IsKept engine torrents pieces P
      → (cs : List Call) (s : S) → P s
      → P (after_all cs s)
  after_all_keeps P k [] s p = p
  after_all_keeps P k (c ∷ cs) s p = after_all_keeps P k cs (after c s) (after_keeps P k c s p)

pub torrents-get : (env : Env) (h : String) (s : Store) → (Rows.get env h s).1.torrents ≡ s.torrents
unfolding Rows.get Rows.select_torrent
torrents-get env h s = elim (Option-cases (env.fault s.calls)) [
  | inl up ↦ ground (arith, call-up env s up)
  | inr (e, down) ↦ ground (arith, call-down env s down)
]

torrents-scan_rows :
    (env : Env) (rows : List Row) (s : Store) → (Rows.scan_rows env rows s).1.torrents ≡ s.torrents
unfolding Rows.scan_rows
torrents-scan_rows env [] s = refl
torrents-scan_rows env (r ∷ rows) s = elim (Option-cases (env.fault s.calls)) [
  | inl up ↦ ground (arith, call-up env s up, torrents-scan_rows env rows (tick s))
  | inr (e, down) ↦ ground (arith, call-down env s down)
]

pub torrents-list : (env : Env) (s : Store) → (Rows.list env s).1.torrents ≡ s.torrents
unfolding Rows.list
torrents-list env s =
    let rows = Rows.order_by_created_at s.torrents in
    let s1 = (Rows.scan_rows env rows (tick s)).1 in
    elim (Option-cases (env.fault s.calls)) [
      | inr (e, down) ↦ ground (arith, call-down env s down)
      | inl up ↦ elim (Option-cases (env.fault s1.calls)) [
        | inl up1 ↦
            ground
              (arith, call-up env s up, torrents-scan_rows env rows (tick s), call-up env s1 up1)
        | inr (e, down) ↦
            ground
              (arith, call-up env s up, torrents-scan_rows env rows (tick s), call-down env s1 down)
      ]
    ]

module _ {C T M : Type 0} (env : Env) (client : Client (World C) T M) (data_dir : FilePath)
    (clock : IsClock env) (spares : SparesTable client) where
  abbrev engine : TorrentEngine (World C)
  engine = torrent_engine env client data_dir

  abbrev repository : TorrentRepository (World C)
  repository = torrent_repository env

  abbrev pieces : PieceRepository (World C)
  pieces = piece_repository env

  abbrev pub HasValidTable : World C → Type 0
  HasValidTable w = IsValid (table w)

  moved : (w w' : World C) → table w' ≡ table w → HasValidTable w → HasValidTable w'
  moved w w' e v = subst IsValid {x = table w} {y = table w'} (sym e) v

  pub table-IsKept : IsKept engine repository pieces HasValidTable
  unfolding Pieces.forget
  table-IsKept = record {
    add_magnet = λ uri w.
        moved w (engine.add_magnet uri w).1 (table-add_magnet env client data_dir uri w spares);
    add_file = λ file w.
        moved w (engine.add_file file w).1 (table-add_file env client data_dir file w spares);
    remove =
        λ h d w. moved w (engine.remove h d w).1 (table-remove env client data_dir h d w spares);
    snapshot =
        λ h w. moved w (engine.snapshot h w).1 (ap table (state-snapshot env client data_dir h w));
    files = λ h w. moved w (engine.files h w).1 (ap table (state-files env client data_dir h w));
    create = λ t w v. run-IsValid env (create_stmt t) w.store clock v;
    get = λ h w. moved w (repository.get h w).1 (torrents-get env h w.store);
    list = λ w. moved w (repository.list w).1 (torrents-list env w.store);
    delete = λ h w v. run-IsValid env (delete_stmt h) w.store clock v;
    set_metadata = λ h name n w v. run-IsValid env (set_metadata_stmt h name n) w.store clock v;
    set_bytes_completed = λ h n w v. run-IsValid env (set_bytes_completed_stmt h n) w.store clock v;
    set_paused = λ h b w v. run-IsValid env (set_paused_stmt h b) w.store clock v;
    forget = λ h w v. v;
  }

  -- Where the clock keeps nanoseconds below a second and the client spares the table `torrent`: any
  -- sequence of calls of the service, any of whose calls into the database, the client and the disk
  -- may fail, keeps the table valid: no info hash occurs twice and the times of every row parse.
  pub after_all-IsValid :
      (calls : List Call) (w : World C)
      → IsValid (table w)
      → IsValid (table (after_all engine repository pieces calls w))
  after_all-IsValid calls w v =
      after_all_keeps engine repository pieces HasValidTable table-IsKept calls w v
