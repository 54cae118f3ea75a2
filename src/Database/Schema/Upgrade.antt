-- ===== src/Database/Schema/Upgrade.antt =====
-- What the migrations do to the torrents of a database.
use torrents.Prelude.{
  String, false, ◌≡◌, refl, ap, ◌∙◌, ◌==◌, none, some, List, [], ◌∷◌, map, All, arith,
}
use torrents.Database.Defs.{Row, PieceRow}
use torrents.Database.Torrents.Table.{row_of, HasUniqueKeys}
use torrents.Database.Torrents.Valid.{IsValid, HasTime, HasTimes}
use torrents.Database.Schema.{
  text, integer, Cells, with_column, without_column, execute, execute_all,
}
use torrents.Database.Schema.Migrations.{first_columns, upgrade, everything, downgrade}
use torrents.Database.Schema.Versions.{
  OldRow, old_cells, older, cells, newer, torrent_table, last_columns, piece_table, first_version,
  last_version, empty,
}

fresh : execute_all everything empty ≡ some (last_version [] [])
unfolding execute execute_all
fresh = refl

-- What the three added columns make of the rows, and the three dropped ones.
grown : List OldRow → List Cells
grown rows =
    (with_column "bytes_completed" (integer 0) (
      with_column "length" (integer 0)
        (with_column "name" (text "") (torrent_table first_columns (map old_cells rows))))).rows

grown_lem : (rows : List OldRow) → grown rows ≡ map cells (map newer rows)
unfolding grown
grown_lem [] = refl
grown_lem (r ∷ rows) = ap (λ rest. cells (newer r) ∷ rest) (grown_lem rows)

shrunk : List Row → List Cells
shrunk rows =
    (without_column "name" (
      without_column "length"
        (without_column "bytes_completed" (torrent_table last_columns (map cells rows))))).rows

shrunk_lem : (rows : List Row) → shrunk rows ≡ map old_cells (map older rows)
unfolding shrunk
shrunk_lem [] = refl
shrunk_lem (r ∷ rows) = ap (λ rest. old_cells (older r) ∷ rest) (shrunk_lem rows)

upgraded :
    (rows : List OldRow)
    → execute_all upgrade (first_version rows) ≡ some (last_version (map newer rows) [])
unfolding execute execute_all grown
upgraded rows =
    ap
      (λ (new_rows : List Cells). some (record (last_version [] []) {
        tables = torrent_table last_columns new_rows ∷ piece_table [] ∷ [];
      }))
      (grown_lem rows)

downgraded :
    (rows : List Row) (pieces : List PieceRow)
    → execute_all downgrade (last_version rows pieces) ≡ some (first_version (map older rows))
unfolding execute execute_all shrunk
downgraded rows pieces =
    ap
      (λ (old_rows : List Cells).
        some (record (first_version []) { tables = torrent_table first_columns old_rows ∷ [] }))
      (shrunk_lem rows)

older-newer : (rows : List OldRow) → map older (map newer rows) ≡ rows
older-newer [] = refl
older-newer (r ∷ rows) = ap (λ rest. r ∷ rest) (older-newer rows)

-- The rows as the repository finds them.
abbrev pub AreUnique : List OldRow → Type 0
AreUnique [] = Unit
AreUnique (r ∷ rows) = All (λ q. q.info_hash == r.info_hash ≡ false) rows × AreUnique rows

abbrev pub HaveTimes : OldRow → Type 0
HaveTimes r = HasTime r.created_at × HasTime r.updated_at

absent :
    (h : String) (rows : List OldRow)
    → All (λ q. q.info_hash == h ≡ false) rows
    → row_of h (map newer rows) ≡ none
absent h [] a = refl
absent h (r ∷ rows) (e, a) = ground (arith, e, absent h rows a)

newer-HasUniqueKeys : (rows : List OldRow) → AreUnique rows → HasUniqueKeys (map newer rows)
newer-HasUniqueKeys [] u = tt
newer-HasUniqueKeys (r ∷ rows) (a, u) = (absent r.info_hash rows a, newer-HasUniqueKeys rows u)

newer-HasTimes : (rows : List OldRow) → All HaveTimes rows → All HasTimes (map newer rows)
newer-HasTimes [] t = tt
newer-HasTimes (r ∷ rows) (t, ts) = (t, newer-HasTimes rows ts)

-- The migrations from the first version of the database to the last one succeed and keep every
-- torrent: its columns are as they were, and its name and its counters are the defaults; and no
-- piece is complete. Where no info hash occurs twice and the times parse, the table is one that the
-- repository keeps valid. Taking the last two migrations back gives the database of the first
-- version with the rows that it had. The migrations succeed on an empty database as well.
pub upgrade_lem :
    (rows : List OldRow)
    → AreUnique rows
    → All HaveTimes rows
    → (execute_all upgrade (first_version rows) ≡ some (last_version (map newer rows) []))
      × IsValid (map newer rows)
      × (execute_all downgrade (last_version (map newer rows) []) ≡ some (first_version rows))
      × (execute_all everything empty ≡ some (last_version [] []))
upgrade_lem rows u t = (
  upgraded rows,
  record { keys = newer-HasUniqueKeys rows u; times = newer-HasTimes rows t },
  downgraded (map newer rows) [] ∙ ap (λ rs. some (first_version rs)) (older-newer rows),
  fresh,
)
