-- ===== src/Ui/Labels.antt =====
-- The Go functions of the templates, by which a page shows the state of a torrent:
-- internal/server/ui/component/torrent_row.templ and status_dot.templ, and
-- internal/server/ui/view/torrent/show.templ and new.templ.
use torrents.Prelude.{ℕ, String, Bool, ◌&&◌, not, ◌==◌, eqb, ltb, leb, if◌then◌else◌}
use torrents.Service.Defs.{Torrent}

-- What the user sees of a number: `fmt.Sprintf` with the numbers left as they are.
pub record Peers : Type 0 where
  pub seeders : ℕ
  pub connected : ℕ

unfoldable pub display_name : Torrent → String
display_name t = if not (t.name == "") then t.name else "(metadata pending)"

unfoldable pub show_title : Torrent → String
show_title t = if not (t.name == "") then t.name else "Torrent detail"

unfoldable pub torrent_status_kind : Torrent → String
torrent_status_kind t =
    if t.paused
    then "paused"
    else if eqb t.length 0
    then "pending"
    else if leb t.length t.bytes_completed
    then "seeding"
    else "downloading"

unfoldable pub status_label : Torrent → String
status_label t =
    if t.paused
    then "Paused"
    else if eqb t.length 0
    then "Fetching metadata"
    else if leb t.length t.bytes_completed
    then "Seeding"
    else "Downloading"

unfoldable pub status_dot_class : String → String
status_dot_class kind =
    if kind == "seeding"
    then "bg-green-500"
    else if kind == "paused"
    then "bg-yellow-500"
    else if kind == "pending"
    then "bg-gray-400"
    else "bg-indigo-500"

unfoldable pub status_dot_label : String → String
status_dot_label kind =
    if kind == "seeding"
    then "seeding"
    else if kind == "paused"
    then "paused"
    else if kind == "pending"
    then "waiting for metadata"
    else "downloading"

-- `data-complete` on the torrent's page and, word for word, on its row: whether the dialog offers to
-- keep the files.
unfoldable pub detail_complete : Torrent → Bool
detail_complete t = ltb 0 t.length && leb t.length t.bytes_completed

unfoldable pub label_or_dash : String → String
label_or_dash s = if s == "" then "—" else s

unfoldable pub dir_or_dash : String → String
dir_or_dash s = if s == "" then "(default)" else s

abbrev pub peer_count : Torrent → Peers
peer_count t = record { seeders = t.seeders; connected = t.active_peers }

unfoldable pub source_or_default : String → String
source_or_default source = if source == "file" then "file" else "magnet"
