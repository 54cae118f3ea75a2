-- ===== src/Tests/DatabaseTests.antt =====
-- The database package's theorems on a small store.

use torrents.Prelude.{true, false, ◌≡◌, refl, none, some, arith, ◌==◌, if◌then◌else◌}
use torrents.Go.Exec.{ok}
use torrents.Go.Time.{Time, stamp_le, time_le}
use torrents.Database.Defs.{Torrent, PieceKey, Store, format_time, call}
use torrents.Database.Torrents as Rows
use torrents.Database.Pieces as Pieces
use torrents.Database.Torrents.Table.{row_of}
use torrents.Database.Pieces.{map_get}
use torrents.Database.Pieces.Coherent.{
  IsCoherent, piece_of, set-IsCoherent, load-IsCoherent, forget-delete,
}
use torrents.Database.Torrents.Keyed.{created, get-create, Deletes, delete-Deletes}
use torrents.Database.Torrents.Order.{text_order_reversed}
use torrents.Tests.Fixtures.{
  unary, noon, row, toy_env, toy_env-IsAlwaysUp, toy_env-IsClock, toy_env-IsHex, toy_store,
}

abbrev new_torrent : Torrent
new_torrent = record {
  info_hash = "aaa";
  magnet = "magnet:?xt=urn:btih:aaa";
  label = "";
  target_dir = "films";
  paused = true;
  name = "early";
  length = 3;
  bytes_completed = 2;
  created_at = noon;
  updated_at = noon;
}

abbrev later : Time
later = record { seconds = 43201; nanos = 0 }

get-create_example :
    (Rows.get toy_env "aaa" (Rows.create toy_env new_torrent toy_store).1).0
    ≡ ok (created toy_env new_torrent toy_store)
get-create_example = get-create toy_env new_torrent toy_store (refl, refl) toy_env-IsClock refl

delete-Deletes_example : Deletes "a" toy_store (Rows.delete toy_env "a" toy_store)
delete-Deletes_example = delete-Deletes toy_env "a" toy_store (refl, refl)

text_order_reversed_example :
    let whole : Time = record { seconds = 43200; nanos = 0 } in
    (time_le whole noon ≡ true)
    × (time_le noon whole ≡ false)
    × (stamp_le (format_time whole) (format_time noon) ≡ false)
    × (stamp_le (format_time noon) (format_time whole) ≡ true)
text_order_reversed_example = text_order_reversed 43200 5000 (ground arith)

load-IsCoherent_example :
    ((Pieces.load toy_env toy_store).0 ≡ ok tt)
    × ((Pieces.load toy_env toy_store).1.completions ≡ toy_store.completions)
    × IsCoherent toy_env (Pieces.load toy_env toy_store).1
load-IsCoherent_example =
    load-IsCoherent toy_env toy_store toy_env-IsHex toy_env-IsAlwaysUp ((1, refl), ((2, refl), tt))
      (refl, (refl, tt))

-- The store after `Load`.
abbrev loaded : Store
loaded = (Pieces.load toy_env toy_store).1

loaded-IsCoherent : IsCoherent toy_env loaded
loaded-IsCoherent =
    (load-IsCoherent toy_env toy_store toy_env-IsHex toy_env-IsAlwaysUp ((1, refl), ((2, refl), tt))
      (refl, (refl, tt))).2

loaded_row : row_of "aa" loaded.torrents ≡ some (row "aa" true)
unfolding Pieces.load Pieces.load_rows call
loaded_row = refl

abbrev key : PieceKey
key = record { info_hash = 2; index = 3 }

set-IsCoherent_example : IsCoherent toy_env (Pieces.set toy_env key true loaded).1
set-IsCoherent_example = set-IsCoherent toy_env key true loaded toy_env-IsHex loaded-IsCoherent

forget-delete_example :
    let s' = Pieces.forget toy_env "aa" (Rows.delete toy_env "aa" loaded).1 in
    (map_get key s'.cache ≡ piece_of (unary 2) 3 s'.completions)
    × (map_get key s'.cache ≡ (if unary 2 == "aa" then none else map_get key loaded.cache))
forget-delete_example =
    forget-delete toy_env "aa" loaded (refl, refl) loaded_row loaded-IsCoherent key
