-- ===== src/Database/Schema/Migrations.antt =====
-- internal/server/database/migrations: the files, statement by statement.
use torrents.Prelude.{String, true, false, List, [], ◌∷◌, ◌++◌}
use torrents.Database.Schema.{
  Statement, create_table, create_index, create_delete_trigger, add_column, drop_column, drop_table,
  drop_index, drop_trigger, text, integer,
}

abbrev pub first_columns : List String
first_columns =
    "info_hash" ∷ "magnet" ∷ "label" ∷ "target_dir" ∷ "is_paused" ∷ "created_at" ∷ "updated_at" ∷ []

-- 0001_init
abbrev pub init_up : List Statement
init_up =
    create_table true "torrent" first_columns ("info_hash" ∷ [])
    ∷ create_index true "idx_torrent_created_at" "torrent" ("created_at" ∷ [])
    ∷ []

abbrev pub init_down : List Statement
init_down = drop_index true "idx_torrent_created_at" ∷ drop_table true "torrent" ∷ []

-- 0002_torrent_metadata
abbrev pub metadata_up : List Statement
metadata_up =
    add_column "torrent" "name" (text "")
    ∷ add_column "torrent" "length" (integer 0)
    ∷ add_column "torrent" "bytes_completed" (integer 0)
    ∷ []

abbrev pub metadata_down : List Statement
metadata_down =
    drop_column "torrent" "bytes_completed"
    ∷ drop_column "torrent" "length"
    ∷ drop_column "torrent" "name"
    ∷ []

-- 0003_piece_completion
abbrev pub completion_up : List Statement
completion_up =
    create_table false "piece_completion" ("info_hash" ∷ "piece_index" ∷ "complete" ∷ [])
      ("info_hash" ∷ "piece_index" ∷ [])
    ∷ create_delete_trigger "piece_completion_cascade" "torrent" ("info_hash" ∷ [])
    ∷ []

abbrev pub completion_down : List Statement
completion_down =
    drop_trigger true "piece_completion_cascade" ∷ drop_table false "piece_completion" ∷ []

-- What `Up` runs on a database of each version, and what `Down` runs on the last version.
abbrev pub upgrade : List Statement
upgrade = metadata_up ++ completion_up

abbrev pub everything : List Statement
everything = init_up ++ upgrade

abbrev pub downgrade : List Statement
downgrade = completion_down ++ metadata_down
