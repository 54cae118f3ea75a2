-- ===== src/Lib.antt =====
-- torrents: a torrent server with a database of the torrents that it manages, a torrent client
-- embedded in it, an HTTP API and a web interface.
--
-- The parts and their files (paths from the repository's root):
--   internal/server/database   the tables `torrent` and `piece_completion` with their two
--     repositories: Database/Defs (database.go and the tables), Database/Torrents
--     (torrent.go), Database/Pieces (piece.go). Database/Torrents/Refines has the map from info
--     hashes to torrents that the repository stands for. Methods keep their names in snake case:
--     TorrentRepository.SetPaused is Database.Torrents.set_paused. Database/Schema has the statements
--     of the migrations on tables with columns, Database/Schema/Migrations the files.
--   internal/server/torrent    the engine over the torrent client: Engine/Defs (engine.go and the
--     interfaces of client.go), Engine/Path (filepath.Join and os.RemoveAll as the engine uses
--     them). Engine/Adapter has the methods of client.go that forward to the third-party client.
--   internal/server/service    TorrentService: Service/Defs over its three interfaces, which are
--     records of operations; Service/Wiring fills them with the other two parts as server.go does.
--     Service/Restore has its method Restore, whose goroutines interleave: each of their calls is a
--     step of the relation Interleaves, and Service/Fairness runs them in the order that a scheduler
--     picks; Service/Handover keeps a list of the magnets that the engine is handed, and
--     Service/Restored has the whole method. Service/Invariant takes an invariant from the calls of the
--     interfaces to the methods. Service/Program has the methods once more, as the sequences of calls
--     that they make (Service/Program/Methods), for requests that are under way together:
--     Service/Program/Pool lets a scheduler pick the request that makes its next call, and lets the
--     goroutines of the torrent client change the state in between.
--   internal/server/api        the HTTP handlers: Api/Defs; Api/Deletion.torrent_service fills
--     their interface with the service. Api/Middleware has Logging and Recovery of api.go, over
--     handlers as what they write and whether they panic.
--   internal/server/ui         the handlers of the web interface: Ui/Defs, a page being its view and
--     model; Ui/Wiring fills their interface. Ui/Labels and Ui/Sizes have the Go functions of the
--     templates.
--   pkg/client                 the client of the API: Remote/Defs; Remote/Server has the routes of
--     internal/server/api/torrent.go and a transport that ends at the handlers.
--   internal/server/config.go and newLogger of server.go: Server. Run of server.go, with Open of
--     database.go and NewClient of client.go: Server/Start, over a record of the calls that leave the
--     program, each of which may fail; what happens is recorded as a list of events. Server/Sending
--     takes the answers of the handlers through the middleware; Server/Lifecycle puts Load, Restore
--     and the requests into Run. Server/Mux has http.ServeMux with the routes that both Register
--     functions and Run give it (Server/Mux/Routes), and the addresses that the pages ask for
--     (Server/Mux/Links); Server/Mux/Visit follows such a request down to the tables, and
--     Server/Mux/Opened the page of a torrent and its button.
--   cmd and main.go            the commands and the exit code: Commands/Defs, over the client of the
--     API; Commands/Whole puts them on top of handlers, service, engine and tables.
--   Go/Errors, Go/Exec and Go/Time hold what the code takes from Go: error values with errors.Is
--     and %w, functions that return a value and an error, and the RFC3339Nano text of a time.
--
-- State is passed explicitly. The database's state is the record Store: the two tables, the cache
-- of the piece repository, and a counter of the calls into SQLite. The record Env answers for what
-- the program does not decide: whether the n-th call fails and with which error, the clock, and the
-- hexadecimal spelling of a hash. The server's state is the record World: the store, the state of
-- the torrent client and the paths on disk. A method returns its result and the new state, and the
-- state stands as it was left when an error ended the method.
--
-- The torrent client is a third-party library: the record Client holds its operations as
-- parameters, and what the theorems need of it are named hypotheses (DropForgets, DropSparesDisk,
-- SparesTable). The same holds for the context: a wait that is cancelled is an error of got_info.
--
-- Bounds: int64 lengths and counters are natural numbers, since the code only compares and copies
-- them and the client reports none below zero. A hash is a natural number, the one that its twenty
-- bytes spell. A stored time is its seconds and the text of its fraction; the part down to the
-- second has a fixed width in the format and sorts as the seconds do. The loop of humanBytes runs on
-- fuel: six rounds, which every int64 gets by with. All other recursion is structural.
--
-- Of requests that are under way together, a call of an interface of the service is one step: the
-- calls of two requests mix, the inside of two calls does not.
--
-- Not modelled: the text of log lines, what other requests do while one call of the engine waits
-- for the metainfo or verifies what is on disk, the configuration of the torrent client, the
-- markup of the templates and their floating point numbers, the files that are served as they are,
-- the cleaning of paths and the redirects of http.ServeMux, the encoding of JSON and of multipart
-- forms (the client's decoder is a parameter), a `?` in a hash that the client is given, the parsing
-- of flags, and the difference between a nil and an empty slice: `Files` returns nil where the
-- engine has no files to tell of, and the model the empty list. The directory licenses holds copies
-- of other projects.
pub mod Prelude
pub mod Go
pub mod Database
pub mod Engine
pub mod Service
pub mod Api
pub mod Ui
pub mod Remote
pub mod Server
pub mod Commands
pub mod Tests
