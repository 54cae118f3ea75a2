-- ===== src/Service/Frame.antt =====
-- What the engine's operations and the service's bookkeeping leave alone in the table `torrent`.
use mathlib.Core.Option
use torrents.Prelude.{
  ℕ, suc, String, Bool, true, ◌&&◌, not, ◌≡◌, refl, ap, ◌∙◌, Option, none, some, inl, inr, List, [],
  ◌∷◌, ◌==◌, arith, if◌then◌else◌, Bool-cases, Option-cases,
}
use torrents.Go.Exec.{Result, ok, err, Result-cases}
use torrents.Go.Time.{Stamp}
use torrents.Database.Defs.{Row, Store, Env, format_time, err_torrent_not_found}
use torrents.Database.Torrents as Rows
use torrents.Database.Torrents.{metadata_columns, bytes_completed_column, paused_column}
use torrents.Database.Torrents.Table.{row_of}
use torrents.Database.Torrents.Keyed.{answer, Updates, set_columns}
use torrents.Database.Torrents.Order.{IsAlwaysUp}
use torrents.Engine.Path.{FilePath}
use torrents.Engine.Defs as Engine
use torrents.Engine.Defs.{World, Client, Progress}
use torrents.Engine.Removal.{with_torrent_keeps}
use torrents.Service.Defs.{TorrentRepository}
use torrents.Service.Wiring.{torrent_repository}

abbrev pub table : {C : Type 0} → World C → List Row
table w = w.store.torrents

-- The torrent client writes to `piece_completion` alone; it has no access to the table `torrent`.
pub record SparesTable {C T M : Type 0} (client : Client (World C) T M) : Type 0 where
  pub add_magnet : (uri : String) (w : World C) → table (client.add_magnet uri w).1 ≡ table w
  pub add_torrent : (mi : M) (w : World C) → table (client.add_torrent mi w).1 ≡ table w
  pub got_info : (t : T) (w : World C) → table (client.got_info t w).1 ≡ table w
  pub verify_data : (t : T) (w : World C) → table (client.verify_data t w).1 ≡ table w
  pub download_all : (t : T) (w : World C) → table (client.download_all t w) ≡ table w
  pub drop : (t : T) (w : World C) → table (client.drop t w) ≡ table w

-- Whether the torrent of an info hash is there, and whether it is paused.
abbrev pub paused_of : {C : Type 0} → String → World C → Option Bool
paused_of h w = Option.map (λ r. r.is_paused) (row_of h (table w))

module _ {C T M : Type 0} (env : Env) (client : Client (World C) T M) (data_dir : FilePath) where
  remove_paths-store :
      (paths : List FilePath) (w : World C)
      → (Engine.remove_paths env client data_dir paths w).1.store ≡ w.store
  unfolding Engine.remove_paths
  remove_paths-store [] w = refl
  remove_paths-store (p ∷ ps) w = elim (Option-cases (client.remove_fault p w)) [
    | inl n ↦ rw (n, Engine.remove_paths) (remove_paths-store ps _)
    | inr ((e, reached), n) ↦ rw (n, Engine.remove_paths) refl
  ]

  table-remove_torrent :
      (d : Bool) (t : T) (w : World C)
      → SparesTable client
      → table (Engine.remove_torrent env client data_dir d t w).1 ≡ table w
  unfolding Engine.remove_torrent
  table-remove_torrent d t w f = elim (Bool-cases (d && not (client.name t w == ""))) [
    | inl e ↦
        rw (e, Engine.remove_torrent)
          (ap (λ (s : Store). s.torrents) (remove_paths-store _ (client.drop t w)) ∙ f.drop t w)
    | inr e ↦ rw (e, Engine.remove_torrent) (f.drop t w)
  ]

  pub table-remove :
      (h : String) (d : Bool) (w : World C)
      → SparesTable client
      → table (Engine.remove env client data_dir h d w).1 ≡ table w
  unfolding Engine.remove Engine.remove_torrent
  table-remove h d w f =
      with_torrent_keeps env client data_dir (λ w'. table w' ≡ table w) h
        (Engine.remove_torrent env client data_dir d) w refl (λ t. table-remove_torrent d t w f)

  pub state-snapshot : (h : String) (w : World C) → (Engine.snapshot env client data_dir h w).1 ≡ w
  unfolding Engine.snapshot
  state-snapshot h w = with_torrent_keeps env client data_dir (λ w'. w' ≡ w) h _ w refl (λ t. refl)

  pub state-files : (h : String) (w : World C) → (Engine.files env client data_dir h w).1 ≡ w
  unfolding Engine.files Engine.files_of
  state-files h w =
      with_torrent_keeps env client data_dir (λ w'. w' ≡ w) h _ w refl (λ t. ground arith)

  table-start :
      (t : T) (w : World C)
      → SparesTable client
      → table (Engine.start env client data_dir t w).1 ≡ table w
  unfolding Engine.start
  table-start t w f =
      let w1 = (client.got_info t w).1 in
      let w2 = (client.verify_data t w1).1 in
      elim (Result-cases (client.got_info t w).0) [
        | inr (e, h) ↦ ground (arith, h, f.drop t w1, f.got_info t w)
        | inl (_, h) ↦ elim (Result-cases (client.verify_data t w1).0) [
          | inr (e, k) ↦ ground (arith, h, k, f.drop t w2, f.verify_data t w1, f.got_info t w)
          | inl (_, k) ↦
              ground (arith, h, k, f.download_all t w2, f.verify_data t w1, f.got_info t w)
        ]
      ]

  pub table-add_magnet :
      (uri : String) (w : World C)
      → SparesTable client
      → table (Engine.add_magnet env client data_dir uri w).1 ≡ table w
  unfolding Engine.add_magnet
  table-add_magnet uri w f = elim (Result-cases (client.add_magnet uri w).0) [
    | inr (e, h) ↦ rw (h, Engine.add_magnet, table) (f.add_magnet uri w)
    | inl (t, h) ↦
        rw (h, Engine.add_magnet, table)
          (table-start t (client.add_magnet uri w).1 f ∙ f.add_magnet uri w)
  ]

  pub table-add_file :
      (file : String) (w : World C)
      → SparesTable client
      → table (Engine.add_file env client data_dir file w).1 ≡ table w
  unfolding Engine.add_file
  table-add_file file w f = elim (Result-cases (client.load_metainfo file)) [
    | inr (e, g) ↦ ground (arith, g)
    | inl (mi, g) ↦ elim (Result-cases (client.add_torrent mi w).0) [
      | inr (e, h) ↦ ground (arith, g, h, f.add_torrent mi w)
      | inl (t, h) ↦
          ground (arith, g, h, f.add_torrent mi w, table-start t (client.add_torrent mi w).1 f)
    ]
  ]

-- An UPDATE of columns other than `is_paused`, and one of `is_paused`, in terms of `paused_of`.
paused-Updates :
    (env : Env) (h : String) (f : Stamp → Row → Row) (g : Bool → Bool) (s : Store)
    (r : Result (Unit {0}) × Store)
    → ((now : Stamp) (row : Row) → (f now row).is_paused ≡ g row.is_paused)
    → Updates env h f s r
    → (j : String)
    → Option.map (λ q. q.is_paused) (row_of j r.1.torrents) ≡ (
        if j == h
        then Option.map g (Option.map (λ q. q.is_paused) (row_of j s.torrents))
        else Option.map (λ q. q.is_paused) (row_of j s.torrents))
paused-Updates env h f g s r k u j = elim (Option-cases (row_of j s.torrents)) [
  | inl missing ↦ ground (arith, u.1 j)
  | inr (q, found) ↦ ground (arith, u.1 j, k (format_time (env.now s.calls)) q)
]

present-answer :
    (o : Option Row)
    → answer o
      ≡ elim (Option.map (λ q. q.is_paused) o) [ none ↦ err err_torrent_not_found | some b ↦ ok tt ]
present-answer none = refl
present-answer (some q) = refl

same-if : (b : Bool) (o : Option Bool) → (if b then Option.map (λ x. x) o else o) ≡ o
same-if b none = ground arith
same-if b (some x) = ground arith

module _ {C : Type 0} (env : Env) (up : IsAlwaysUp env) where
  abbrev repository : TorrentRepository (World C)
  repository = torrent_repository env

  -- Pausing and unpausing: the answer, and the flag of every torrent.
  pub set_paused_flag :
      (h : String) (b : Bool) (w : World C) (j : String)
      → let (r, w') = repository.set_paused h b w in
        (r ≡ elim (paused_of h w) [ none ↦ err err_torrent_not_found | some _ ↦ ok tt ])
        × (paused_of j w' ≡ (if j == h then Option.map (λ _. b) (paused_of j w) else paused_of j w))
  set_paused_flag h b w j =
      let u = (set_columns env h "" 0 b w.store (up w.store.calls, up (suc w.store.calls))).0 in
      (
        u.0 ∙ present-answer (row_of h (table w)),
        paused-Updates env h (paused_column b) (λ _. b) w.store (Rows.set_paused env h b w.store)
            (λ now q. refl) u j,
      )

  -- Recording metadata or progress changes no flag.
  pub set_metadata_flag :
      (h name : String) (n : ℕ) (w : World C) (j : String)
      → paused_of j (repository.set_metadata h name n w).1 ≡ paused_of j w
  set_metadata_flag h name n w j =
      let u =
        (set_columns env h name n true w.store (up w.store.calls, up (suc w.store.calls))).1 in
      paused-Updates env h (metadata_columns name n) (λ b. b) w.store
        (Rows.set_metadata env h name n w.store) (λ now q. refl) u j
      ∙ same-if (j == h) (paused_of j w)

  pub set_bytes_completed_flag :
      (h : String) (n : ℕ) (w : World C) (j : String)
      → paused_of j (repository.set_bytes_completed h n w).1 ≡ paused_of j w
  set_bytes_completed_flag h n w j =
      let u = (set_columns env h "" n true w.store (up w.store.calls, up (suc w.store.calls))).2 in
      paused-Updates env h (bytes_completed_column n) (λ b. b) w.store
        (Rows.set_bytes_completed env h n w.store) (λ now q. refl) u j
      ∙ same-if (j == h) (paused_of j w)
