-- ===== src/Database/Torrents/Refines.antt =====
-- `TorrentRepository` against what it promises: a map from info hashes to torrents. The view of the
-- table as a map forgets the order of the rows and their times.
use mathlib.Core.Option
use torrents.Prelude.{
  ℕ, suc, String, Bool, true, false, ◌≡◌, refl, ap, ◌∙◌, fun_ext, Option, none, some, inl, inr,
  List, [], ◌∷◌, ◌==◌, eq_iff, arith, if◌then◌else◌, Option-cases,
}
use torrents.Go.Exec.{Result, ok, err}
use torrents.Go.Time.{Stamp}
use torrents.Database.Defs.{
  Row, Torrent, Store, Env, format_time, err_torrent_not_found, err_torrent_already_exists,
}
use torrents.Database.Torrents.{
  create, get, scan_torrent, delete, set_metadata, set_bytes_completed, set_paused,
  metadata_columns, bytes_completed_column, paused_column,
}
use torrents.Database.Torrents.Table.{row_of, row_of-append}
use torrents.Database.Torrents.Exact.{new_row, create_new, create_duplicate, get_found, get_missing}
use torrents.Database.Torrents.Keyed.{Updates, set_columns, delete-Deletes}
use torrents.Database.Torrents.Valid.{
  IsValid, IsClock, Statement, create_stmt, delete_stmt, set_metadata_stmt,
  set_bytes_completed_stmt, set_paused_stmt, run-IsValid, row_of-HasTimes,
}
use torrents.Database.Torrents.Order.{IsAlwaysUp, scan_torrent-ok}

-- What the map holds of a torrent.
pub record Entry : Type 0 where
  pub magnet : String
  pub label : String
  pub target_dir : String
  pub paused : Bool
  pub name : String
  pub length : ℕ
  pub bytes_completed : ℕ

abbrev pub Book : Type 0
Book = String → Option Entry

abbrev pub entry_of : Row → Entry
entry_of r = record {
  magnet = r.magnet;
  label = r.label;
  target_dir = r.target_dir;
  paused = r.is_paused;
  name = r.name;
  length = r.length;
  bytes_completed = r.bytes_completed;
}

abbrev pub entry_of_torrent : Torrent → Entry
entry_of_torrent t = record {
  magnet = t.magnet;
  label = t.label;
  target_dir = t.target_dir;
  paused = t.paused;
  name = t.name;
  length = t.length;
  bytes_completed = t.bytes_completed;
}

-- The table as a map.
abbrev pub book_of : List Row → Book
book_of rows h = Option.map entry_of (row_of h rows)

pub data Operation : Type 0 where
  write : Statement → Operation
  read : String → Operation

-- The answer to an operation; reading answers with the torrent.
abbrev pub Answer : Type 0
Answer = Result (Option Entry)

-- The map changed at one key.
abbrev pub put : String → Option Entry → Book → Book
put h e book j = if j == h then e else book j

-- An operation that wants the torrent to be there.
abbrev pub changing : String → (Entry → Option Entry) → Book → Answer × Book
changing h f book = elim (book h) [
  | none ↦ (err err_torrent_not_found, book)
  | some e ↦ (ok none, put h (f e) book)
]

-- The map's side: what each operation promises.
abbrev pub promise : Operation → Book → Answer × Book
promise (write (create_stmt t)) book = elim (book t.info_hash) [
  | some e ↦ (err err_torrent_already_exists, book)
  | none ↦ (
    ok none,
    put t.info_hash
        (some (record {
          magnet = t.magnet;
          label = t.label;
          target_dir = t.target_dir;
          paused = false;
          name = "";
          length = 0;
          bytes_completed = 0;
        }))
        book,
  )
]
promise (write (delete_stmt h)) book = changing h (λ e. none) book
promise (write (set_metadata_stmt h name length)) book =
    changing h (λ e. some (record e { name = name; length = length })) book
promise (write (set_bytes_completed_stmt h n)) book =
    changing h (λ e. some (record e { bytes_completed = n })) book
promise (write (set_paused_stmt h paused)) book =
    changing h (λ e. some (record e { paused = paused })) book
promise (read h) book = elim (book h) [
  | none ↦ (err err_torrent_not_found, book)
  | some e ↦ (ok (some e), book)
]

abbrev pub promise_all : List Operation → Book → List Answer × Book
promise_all [] book = ([], book)
promise_all (op ∷ ops) book =
    let (a, book') = promise op book in
    let (as', book'') = promise_all ops book' in (a ∷ as', book'')

-- The repository's side.
abbrev pub done : Result (Unit {0}) × Store → Answer × Store
done (r, s) = (elim r [ ok _ ↦ ok none | err e ↦ err e ], s)

abbrev pub found : Result Torrent × Store → Answer × Store
found (r, s) = (elim r [ ok t ↦ ok (some (entry_of_torrent t)) | err e ↦ err e ], s)

abbrev pub perform : Env → Operation → Store → Answer × Store
perform env (write (create_stmt t)) s = done (create env t s)
perform env (write (delete_stmt h)) s = done (delete env h s)
perform env (write (set_metadata_stmt h name length)) s = done (set_metadata env h name length s)
perform env (write (set_bytes_completed_stmt h n)) s = done (set_bytes_completed env h n s)
perform env (write (set_paused_stmt h paused)) s = done (set_paused env h paused s)
perform env (read h) s = found (get env h s)

abbrev pub perform_all : Env → List Operation → Store → List Answer × Store
perform_all env [] s = ([], s)
perform_all env (op ∷ ops) s =
    let (a, s') = perform env op s in let (as', s'') = perform_all env ops s' in (a ∷ as', s'')

-- The answer and the map of a concrete step.
abbrev pub viewed : Answer × Store → Answer × Book
viewed (a, s) = (a, book_of s.torrents)

both : (x y : Answer × Book) → x.0 ≡ y.0 → ((j : String) → x.1 j ≡ y.1 j) → x ≡ y
both x y p q = λ i. (p i, fun_ext q i)

module _ (env : Env) (up : IsAlwaysUp env) where
  create-promise :
      (t : Torrent) (s : Store)
      → viewed (done (create env t s)) ≡ promise (write (create_stmt t)) (book_of s.torrents)
  create-promise t s = elim (Option-cases (row_of t.info_hash s.torrents)) [
    | inl new ↦
        both (viewed (done (create env t s))) (promise (write (create_stmt t)) (book_of s.torrents))
          (ground (arith, new, create_new env t s (up s.calls) new))
          (λ j. ground (
            arith,
            new,
            create_new env t s (up s.calls) new,
            row_of-append j s.torrents (new_row t (format_time (env.now s.calls))),
            eq_iff j t.info_hash,
            eq_iff t.info_hash j,
          ))
    | inr (r, old) ↦
        both (viewed (done (create env t s))) (promise (write (create_stmt t)) (book_of s.torrents))
          (ground (arith, old, create_duplicate env t s (up s.calls) old))
          (λ j. ground (arith, old, create_duplicate env t s (up s.calls) old))
  ]

  update-promise :
      (h : String) (f : Stamp → Row → Row) (g : Entry → Entry) (s : Store)
      (p : Result (Unit {0}) × Store)
      → ((now : Stamp) (r : Row) → entry_of (f now r) ≡ g (entry_of r))
      → Updates env h f s p
      → viewed (done p) ≡ changing h (λ e. some (g e)) (book_of s.torrents)
  update-promise h f g s p k u = elim (Option-cases (row_of h s.torrents)) [
    | inl gone ↦
        both (viewed (done p)) (changing h (λ e. some (g e)) (book_of s.torrents))
          (ground (arith, gone, u.0)) (λ j. ground (arith, gone, u.0, u.1 j, eq_iff j h))
    | inr (r, there) ↦
        both (viewed (done p)) (changing h (λ e. some (g e)) (book_of s.torrents))
          (ground (arith, there, u.0))
          (λ j. ground (arith, there, u.0, u.1 j, eq_iff j h, k (format_time (env.now s.calls)) r))
  ]

  delete-promise :
      (h : String) (s : Store)
      → viewed (done (delete env h s)) ≡ changing h (λ e. none) (book_of s.torrents)
  delete-promise h s =
      let u = delete-Deletes env h s (up s.calls, up (suc s.calls)) in
      elim (Option-cases (row_of h s.torrents)) [
        | inl gone ↦
            both (viewed (done (delete env h s))) (changing h (λ e. none) (book_of s.torrents))
              (ground (arith, gone, u.0)) (λ j. ground (arith, gone, u.0, u.1 j, eq_iff j h))
        | inr (r, there) ↦
            both (viewed (done (delete env h s))) (changing h (λ e. none) (book_of s.torrents))
              (ground (arith, there, u.0)) (λ j. ground (arith, there, u.0, u.1 j))
      ]

  scan-entry : (r : Row) {t : Torrent} → scan_torrent r ≡ ok t → entry_of_torrent t ≡ entry_of r
  unfolding scan_torrent
  scan-entry r e = ground arith

  get-promise :
      (h : String) (s : Store)
      → IsValid s.torrents
      → viewed (found (get env h s)) ≡ promise (read h) (book_of s.torrents)
  get-promise h s v = elim (Option-cases (row_of h s.torrents)) [
    | inl gone ↦
        both (viewed (found (get env h s))) (promise (read h) (book_of s.torrents))
          (ground (arith, gone, get_missing env h s (up s.calls) gone))
          (λ j. ground (arith, gone, get_missing env h s (up s.calls) gone))
    | inr (r, there) ↦
        let (t, scanned, same) = scan_torrent-ok r (row_of-HasTimes h s.torrents v.times there) in
        both (viewed (found (get env h s))) (promise (read h) (book_of s.torrents))
          (ground
            (arith, there, get_found env h s (up s.calls) there, scanned, scan-entry r scanned))
          (λ j. ground (arith, there, get_found env h s (up s.calls) there, scanned))
  ]

  perform-promise :
      (op : Operation) (s : Store)
      → IsValid s.torrents
      → viewed (perform env op s) ≡ promise op (book_of s.torrents)
  perform-promise (write (create_stmt t)) s v = create-promise t s
  perform-promise (write (delete_stmt h)) s v = delete-promise h s
  perform-promise (write (set_metadata_stmt h name n)) s v =
      update-promise h (metadata_columns name n) (λ e. record e { name = name; length = n }) s
        (set_metadata env h name n s) (λ now r. refl)
        (set_columns env h name n true s (up s.calls, up (suc s.calls))).1
  perform-promise (write (set_bytes_completed_stmt h n)) s v =
      update-promise h (bytes_completed_column n) (λ e. record e { bytes_completed = n }) s
        (set_bytes_completed env h n s) (λ now r. refl)
        (set_columns env h "" n true s (up s.calls, up (suc s.calls))).2
  perform-promise (write (set_paused_stmt h paused)) s v =
      update-promise h (paused_column paused) (λ e. record e { paused = paused }) s
        (set_paused env h paused s) (λ now r. refl)
        (set_columns env h "" 0 paused s (up s.calls, up (suc s.calls))).0
  perform-promise (read h) s v = get-promise h s v

  perform-IsValid :
      (op : Operation) (s : Store)
      → IsClock env
      → IsValid s.torrents
      → IsValid (perform env op s).1.torrents
  perform-IsValid (write (create_stmt t)) s c v = run-IsValid env (create_stmt t) s c v
  perform-IsValid (write (delete_stmt h)) s c v = run-IsValid env (delete_stmt h) s c v
  perform-IsValid (write (set_metadata_stmt h name n)) s c v =
      run-IsValid env (set_metadata_stmt h name n) s c v
  perform-IsValid (write (set_bytes_completed_stmt h n)) s c v =
      run-IsValid env (set_bytes_completed_stmt h n) s c v
  perform-IsValid (write (set_paused_stmt h paused)) s c v =
      run-IsValid env (set_paused_stmt h paused) s c v
  perform-IsValid (read h) s c v = elim (Option-cases (row_of h s.torrents)) [
    | inl gone ↦ rw (get_missing env h s (up s.calls) gone) v
    | inr (r, there) ↦ rw (get_found env h s (up s.calls) there) v
  ]

  -- With no call failing and a clock that keeps nanoseconds below a second: on a valid table, any
  -- sequence of reads and writes gives the answers that a map from info hashes to torrents gives,
  -- errors included, and leaves the table with that map as its view.
  pub perform_all-promise_all :
      (ops : List Operation) (s : Store)
      → IsClock env
      → IsValid s.torrents
      → let (answers, s') = perform_all env ops s in
        let (promised, book) = promise_all ops (book_of s.torrents) in
        (answers ≡ promised) × (book_of s'.torrents ≡ book)
  perform_all-promise_all [] s c v = (refl, refl)
  perform_all-promise_all (op ∷ ops) s c v =
      let step : (perform env op s).0 ≡ (promise op (book_of s.torrents)).0 =
        ap (λ (p : Answer × Book). p.0) (perform-promise op s v) in
      let book : book_of (perform env op s).1.torrents ≡ (promise op (book_of s.torrents)).1 =
        ap (λ (p : Answer × Book). p.1) (perform-promise op s v) in
      let rest = perform_all-promise_all ops (perform env op s).1 c (perform-IsValid op s c v) in
      (
        (λ i. step i ∷ (rest.0 ∙ ap (λ (b : Book). (promise_all ops b).0) book) i),
        rest.1 ∙ ap (λ (b : Book). (promise_all ops b).1) book,
      )
