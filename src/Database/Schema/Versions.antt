-- ===== src/Database/Schema/Versions.antt =====
-- A database before the second migration and after the last one.
use torrents.Prelude.{String, Bool, List, [], ◌∷◌, ◌++◌, map, if◌then◌else◌}
use torrents.Go.Time.{Stamp}
use torrents.Database.Defs.{Row, PieceRow}
use torrents.Database.Schema.{Value, text, integer, time, Cells, Table, Attached, Schema}
use torrents.Database.Schema.Migrations.{first_columns}

-- A row of the table `torrent` before its second migration.
pub record OldRow : Type 0 where
  pub info_hash : String
  pub magnet : String
  pub label : String
  pub target_dir : String
  pub is_paused : Bool
  pub created_at : Stamp
  pub updated_at : Stamp

abbrev pub flag : Bool → Value
flag b = integer (if b then 1 else 0)

abbrev pub old_cells : OldRow → Cells
old_cells r =
    ("info_hash", text r.info_hash)
    ∷ ("magnet", text r.magnet)
    ∷ ("label", text r.label)
    ∷ ("target_dir", text r.target_dir)
    ∷ ("is_paused", flag r.is_paused)
    ∷ ("created_at", time r.created_at)
    ∷ ("updated_at", time r.updated_at)
    ∷ []

abbrev pub older : Row → OldRow
older r = record {
  info_hash = r.info_hash;
  magnet = r.magnet;
  label = r.label;
  target_dir = r.target_dir;
  is_paused = r.is_paused;
  created_at = r.created_at;
  updated_at = r.updated_at;
}

-- The row that the repository works on.
abbrev pub cells : Row → Cells
cells r =
    old_cells (older r)
    ++ ("name", text r.name)
      ∷ ("length", integer r.length)
      ∷ ("bytes_completed", integer r.bytes_completed)
      ∷ []

abbrev pub piece_cells : PieceRow → Cells
piece_cells p =
    ("info_hash", text p.info_hash)
    ∷ ("piece_index", integer p.piece_index)
    ∷ ("complete", flag p.complete)
    ∷ []

abbrev pub newer : OldRow → Row
newer r = record {
  info_hash = r.info_hash;
  magnet = r.magnet;
  label = r.label;
  target_dir = r.target_dir;
  is_paused = r.is_paused;
  name = "";
  length = 0;
  bytes_completed = 0;
  created_at = r.created_at;
  updated_at = r.updated_at;
}

-- A database of the first version, and one of the last.
abbrev pub torrent_table : List String → List Cells → Table
torrent_table columns rows = record {
  name = "torrent";
  columns = columns;
  primary_key = "info_hash" ∷ [];
  rows = rows;
}

abbrev pub created_index : List Attached
created_index =
    (record { name = "idx_torrent_created_at"; on = "torrent"; columns = "created_at" ∷ [] }) ∷ []

abbrev pub first_version : List OldRow → Schema
first_version rows = record {
  tables = torrent_table first_columns (map old_cells rows) ∷ [];
  indices = created_index;
  triggers = [];
}

abbrev pub last_columns : List String
last_columns = first_columns ++ "name" ∷ "length" ∷ "bytes_completed" ∷ []

abbrev pub piece_table : List PieceRow → Table
piece_table pieces = record {
  name = "piece_completion";
  columns = "info_hash" ∷ "piece_index" ∷ "complete" ∷ [];
  primary_key = "info_hash" ∷ "piece_index" ∷ [];
  rows = map piece_cells pieces;
}

abbrev pub cascade : List Attached
cascade =
    (record { name = "piece_completion_cascade"; on = "torrent"; columns = "info_hash" ∷ [] }) ∷ []

abbrev pub last_version : List Row → List PieceRow → Schema
last_version rows pieces = record {
  tables = torrent_table last_columns (map cells rows) ∷ piece_table pieces ∷ [];
  indices = created_index;
  triggers = cascade;
}

abbrev pub empty : Schema
empty = record { tables = []; indices = []; triggers = [] }
