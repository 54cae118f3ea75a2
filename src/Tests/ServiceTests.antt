-- ===== src/Tests/ServiceTests.antt =====
-- The theorems on the repository as a map, on what the service shows and keeps, and on the restore.

use mathlib.Core.List.{Perm}
use torrents.Prelude.{
  ℕ, zero, suc, String, true, false, ◌≡◌, refl, Option, none, List, [], ◌∷◌, map, arith,
}
use torrents.Go.Errors.{Error}
use torrents.Go.Exec.{ok}
use torrents.Database.Defs.{Row, Torrent}
use torrents.Database.Torrents.Table.{row_of}
use torrents.Database.Torrents.Order.{IsOrdered}
use torrents.Database.Torrents.Valid.{create_stmt, delete_stmt, set_paused_stmt}
use torrents.Database.Torrents.Refines.{
  Operation, read, write, perform_all, promise_all, book_of, perform_all-promise_all,
}
use torrents.Engine.Defs.{World}
use torrents.Service.Defs.{PieceRepository, is_complete, hydrate}
use torrents.Service.Frame.{table}
use torrents.Service.Defs as Service
use torrents.Service.Listing.{AllShown, Finds, list-AllShown, get-Finds}
use torrents.Service.Wiring.{piece_repository}
use torrents.Service.Restore.{ended, start}
use torrents.Service.Handover.{logged, unlogged, unpaused, restored_group, IsFair, restore_hands}
use torrents.Database.Torrents as Database
use torrents.Go.Time.{text_le, stamp_le}
use torrents.Database.Defs as Rows
use torrents.Database.Torrents.Valid.{parse_time-format_time}
use torrents.Service.Fairness.{Schedule, nth_job, run_schedule}
use torrents.Api.Middleware.{write}
use torrents.Ui.Labels.{detail_complete}
use torrents.Ui.Complete.{Compares, unmeasured, detail_complete-Compares}
use torrents.Tests.PagesTests.{engine, repository}
use torrents.Tests.Fixtures.{
  noon, toy_env, toy_env-IsAlwaysUp, toy_env-IsClock, toy_store, toy_store-IsValid, toy_client,
  toy_world, data_dir, Tracked,
}

abbrev torrent : String → Torrent
torrent h = record {
  info_hash = h;
  magnet = "magnet:?xt=urn:btih:a";
  label = "films";
  target_dir = "";
  paused = false;
  name = "film";
  length = 10;
  bytes_completed = 4;
  created_at = noon;
  updated_at = noon;
}

-- A duplicate, a new torrent, a missing one and three calls on the same.
abbrev operations : List Operation
operations =
    write (create_stmt (torrent "a"))
    ∷ write (create_stmt (torrent "b"))
    ∷ write (delete_stmt "c")
    ∷ read "b"
    ∷ write (set_paused_stmt "b" true)
    ∷ read "b"
    ∷ []

perform_all-promise_all_example :
    let (answers, s') = perform_all toy_env operations toy_store in
    let (promised, book) = promise_all operations (book_of toy_store.torrents) in
    (answers ≡ promised) × (book_of s'.torrents ≡ book)
perform_all-promise_all_example =
    perform_all-promise_all toy_env toy_env-IsAlwaysUp operations toy_store toy_env-IsClock
      toy_store-IsValid

-- The torrent "a" is restored, and "aa" stays paused.
abbrev listed : List Torrent
listed = torrent "a" ∷ record (torrent "aa") { paused = true } ∷ []

text_le_refl : (xs : List ℕ) → text_le xs xs ≡ true
unfolding text_le
text_le_refl [] = refl
text_le_refl (x ∷ xs) = ground (arith, text_le_refl xs)

listed_lem : (repository.list toy_world).0 ≡ ok listed
unfolding Database.list Database.scan_rows Database.order_by_created_at
    Database.insert_by_created_at Database.scan_torrent Rows.parse_timestamps Rows.call stamp_le
listed_lem = ground (
  arith,
  parse_time-format_time noon (ground arith),
  text_le_refl (Rows.format_time noon).fraction,
)

abbrev schedule : Schedule
schedule = 0 ∷ 1 ∷ 0 ∷ 0 ∷ 0 ∷ []

schedule-IsFair : IsFair schedule 1
schedule-IsFair zero h = ground arith
schedule-IsFair (suc n) h = absurd (ground arith)

abbrev no_error_beside : World Tracked × List String → Option Error
no_error_beside q = none

restore_hands_example :
    let (started, q) = start (logged engine) (unlogged repository) (toy_world, []) in
    let (g, q') =
      run_schedule
        (logged engine)
        (unlogged repository)
        no_error_beside
        schedule
        (restored_group listed)
        q in
    (started ≡ ok (restored_group listed))
    × (nth_job 0 g.0 ≡ ended)
    × Perm q'.1 (map (λ row. row.magnet) (unpaused listed))
restore_hands_example =
    restore_hands engine repository no_error_beside listed schedule toy_world 0 listed_lem
      schedule-IsFair

abbrev pieces : PieceRepository (World Tracked)
pieces = piece_repository toy_env

detail_complete-Compares_example :
    Compares
      (torrent "a")
      (unmeasured (engine.snapshot "a" toy_world).0)
      (detail_complete (hydrate engine repository pieces (torrent "a") toy_world).0)
      (is_complete engine repository pieces (torrent "a") toy_world).0
detail_complete-Compares_example =
    detail_complete-Compares engine repository pieces (torrent "a") toy_world

list-AllShown_example :
    let (res, w') = Service.list engine repository pieces toy_world in
    (ts : List Service.Torrent) × (rows : List Row) × (res ≡ ok ts)
    × AllShown toy_env (toy_client "film") w' rows ts
    × Perm rows (table toy_world)
    × IsOrdered rows
    × (table w' ≡ table toy_world)
list-AllShown_example =
    list-AllShown toy_env (toy_client "film") data_dir toy_env-IsAlwaysUp toy_world
      toy_store-IsValid

get-Finds_example :
    let (res, w') = Service.get engine repository pieces "a" toy_world in
    Finds toy_env (toy_client "film") w' (row_of "a" (table toy_world)) res
    × (table w' ≡ table toy_world)
get-Finds_example =
    get-Finds toy_env (toy_client "film") data_dir toy_env-IsAlwaysUp "a" toy_world
      toy_store-IsValid
