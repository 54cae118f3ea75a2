-- ===== src/Service/Program/Undeleted.antt =====
-- The methods that do not delete the row of a torrent: none but `Remove` of that torrent does.
use torrents.Prelude.{String, Bool, true, false, ◌≡◌, refl, ◌==◌, List, [], ◌∷◌, if◌then◌else◌}
use torrents.Go.Errors.{Error, Sentinel, is}
use torrents.Go.Exec.{Result, ok, err}
use torrents.Database.Defs.{Torrent as DbTorrent}
use torrents.Service.Defs.{AddOptions}
use torrents.Service.Always.{
  Call, add_magnet_call, add_file_call, get_call, files_call, pause_call, resume_call, list_call,
  remove_call,
}
use torrents.Service.Program.{Op, row_delete, Answer, Program, reply, ask, attempt}
use torrents.Service.Program.Methods.{
  persist_metadata, persist_bytes_completed, hydrate, failing, get, persist, add_magnet, add_file,
  files, hydrate_all, list, is_complete, remove_from_engine, remove, pause, resume,
}
use torrents.Service.Program.Requests.{Reply, replying, request}

abbrev pub deletes : String → Op → Bool
deletes h (row_delete j) = j == h
deletes h _ = false

-- No call of the program, whatever the answers are, deletes the row.
abbrev pub Spares : {A : Type 0} → String → Program A → Type 0
Spares h (reply r) = Unit
Spares h (ask op k) = (deletes h op ≡ false) × ((a : Answer op) → Spares h (k a))

abbrev pub removes : String → Call → Bool
removes h (remove_call j d) = j == h
removes h _ = false

module _ (h : String) where
  attempt-Spares :
      {A B : Type 0} (p : Program A) (f : Error → Program B) (k : A → Program B)
      → Spares h p
      → ((e : Error) → Spares h (f e))
      → ((a : A) → Spares h (k a))
      → Spares h (attempt p f k)
  attempt-Spares (reply (ok a)) f k s t u = u a
  attempt-Spares (reply (err e)) f k s t u = t e
  attempt-Spares (ask op c) f k (s, ss) t u = (s, λ a. attempt-Spares (c a) f k (ss a) t u)

  -- What follows the answer to a call whose error is tested.
  tested-Spares :
      {A B : Type 0} (f : Error → Program B) (k : A → Program B)
      → ((e : Error) → Spares h (f e))
      → ((a : A) → Spares h (k a))
      → (r : Result A) → Spares h (attempt (reply r) f k)
  tested-Spares f k t u (ok a) = u a
  tested-Spares f k t u (err e) = t e

  branch-Spares :
      {A B : Type 0} (f : Error → Program B) (k : A → Program B)
      → ((e : Error) → Spares h (f e))
      → ((a : A) → Spares h (k a))
      → (r : Result A) → Spares h (elim r as (λ _. Program B) [ ok a ↦ k a | err e ↦ f e ])
  branch-Spares f k t u (ok a) = u a
  branch-Spares f k t u (err e) = t e

  if-Spares :
      {A : Type 0} (b : Bool) (p q : Program A)
      → Spares h p
      → Spares h q
      → Spares h (if b then p else q)
  if-Spares true p q s t = s
  if-Spares false p q s t = t

  persist_metadata-Spares : (j : String) → Spares h (persist_metadata j)
  unfolding persist_metadata
  persist_metadata-Spares j = (
    refl,
    branch-Spares _ _ (λ e. tt)
        (λ progress. if-Spares (progress.name == "") _ (ask _ _) tt (refl, λ _. tt)),
  )

  persist_bytes_completed-Spares : (j : String) → Spares h (persist_bytes_completed j)
  unfolding persist_bytes_completed
  persist_bytes_completed-Spares j =
      (refl, branch-Spares _ (λ progress. ask _ _) (λ e. tt) (λ progress. (refl, λ _. tt)))

  hydrate-Spares : (row : DbTorrent) → Spares h (hydrate row)
  unfolding hydrate
  hydrate-Spares row = (refl, branch-Spares _ _ (λ e. tt) (λ progress. tt))

  get-Spares : (j : String) → Spares h (get j)
  unfolding get
  get-Spares j = (refl, tested-Spares _ _ (λ e. tt) hydrate-Spares)

  persist-Spares : (j magnet : String) (opts : AddOptions) → Spares h (persist j magnet opts)
  unfolding persist
  persist-Spares j magnet opts = (
    refl,
    tested-Spares _ _ (λ e. tt)
        (λ _. attempt-Spares _ _ _ (persist_metadata-Spares j) (λ e. tt) (λ _. get-Spares j)),
  )

  add_magnet-Spares : (uri : String) (opts : AddOptions) → Spares h (add_magnet uri opts)
  unfolding add_magnet
  add_magnet-Spares uri opts = (refl, tested-Spares _ _ (λ e. tt) (λ j. persist-Spares j uri opts))

  add_file-Spares : (file : String) (opts : AddOptions) → Spares h (add_file file opts)
  unfolding add_file
  add_file-Spares file opts = (refl, tested-Spares _ _ (λ e. tt) (λ j. persist-Spares j _ opts))

  files-Spares : (j : String) → Spares h (files j)
  unfolding files
  files-Spares j =
      (refl, tested-Spares _ _ (λ e. tt) (λ _. (refl, tested-Spares _ _ (λ e. tt) (λ fp. tt))))

  hydrate_all-Spares : (rows : List DbTorrent) → Spares h (hydrate_all rows)
  unfolding hydrate_all
  hydrate_all-Spares [] = tt
  hydrate_all-Spares (row ∷ rows) =
      attempt-Spares _ _ _ (hydrate-Spares row) (λ e. tt)
        (λ t. attempt-Spares _ _ _ (hydrate_all-Spares rows) (λ e. tt) (λ ts. tt))

  list-Spares : Spares h list
  unfolding list
  list-Spares = (refl, tested-Spares _ _ (λ e. tt) hydrate_all-Spares)

  is_complete-Spares : (row : DbTorrent) → Spares h (is_complete row)
  unfolding is_complete
  is_complete-Spares row = (refl, branch-Spares _ _ (λ e. tt) (λ progress. tt))

  remove_from_engine-Spares : (j : String) (d : Bool) → Spares h (remove_from_engine j d)
  unfolding remove_from_engine
  remove_from_engine-Spares j d = (
    refl,
    tested-Spares _ _ (λ e. if-Spares (is e Sentinel.engine_not_found) _ _ tt tt) (λ _. tt),
  )

  remove-Spares : (j : String) (d : Bool) → j == h ≡ false → Spares h (remove j d)
  unfolding remove
  remove-Spares j d ne = (
    refl,
    tested-Spares _ _ (λ e. tt)
        (λ row.
          attempt-Spares _ _ _ (is_complete-Spares row) (λ e. tt)
            (λ complete.
              attempt-Spares _ _ _ (remove_from_engine-Spares j _) (λ e. tt)
                (λ _. (ne, tested-Spares _ _ (λ e. tt) (λ _. (refl, λ _. tt)))))),
  )

  pause-Spares : (j : String) → Spares h (pause j)
  unfolding pause
  pause-Spares j =
      attempt-Spares _ _ _ (persist_bytes_completed-Spares j) (λ e. tt)
        (λ _.
          attempt-Spares _ _ _ (remove_from_engine-Spares j false) (λ e. tt)
            (λ _. (refl, tested-Spares _ _ (λ e. tt) (λ _. tt))))

  resume-Spares : (j : String) → Spares h (resume j)
  unfolding resume
  resume-Spares j = (
    refl,
    tested-Spares _ _ (λ e. tt)
        (λ row. (
          refl,
          tested-Spares _ _ (λ e. tt)
              (λ _. (refl, tested-Spares _ _ (λ e. (refl, λ _. tt)) persist_metadata-Spares)),
        )),
  )

  replying-Spares :
      {A : Type 0} (p : Program A) (f : A → Reply) → Spares h p → Spares h (replying p f)
  replying-Spares p f s = attempt-Spares p failing (λ a. reply (ok (f a))) s (λ e. tt) (λ a. tt)

  pub request-Spares : (c : Call) → removes h c ≡ false → Spares h (request c)
  request-Spares (add_magnet_call uri opts) e = replying-Spares _ _ (add_magnet-Spares uri opts)
  request-Spares (add_file_call file opts) e = replying-Spares _ _ (add_file-Spares file opts)
  request-Spares (get_call j) e = replying-Spares _ _ (get-Spares j)
  request-Spares (files_call j) e = replying-Spares _ _ (files-Spares j)
  request-Spares (pause_call j) e = replying-Spares _ _ (pause-Spares j)
  request-Spares (resume_call j) e = replying-Spares _ _ (resume-Spares j)
  request-Spares list_call e = replying-Spares _ _ list-Spares
  request-Spares (remove_call j d) e = replying-Spares _ _ (remove-Spares j d e)
