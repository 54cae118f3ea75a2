-- ===== src/Database/Pieces.antt =====
-- internal/server/database/piece.go: `PieceRepository`, its table and its cache. Each method runs
-- under the mutex, so it is one step.
pub mod Coherent
use torrents.Prelude.{
  ℕ, String, Bool, true, false, not, ◌&&◌, Option, none, some, List, [], ◌∷◌, ◌==◌, eqb, keep,
  if◌then◌else◌,
}
use torrents.Go.Errors.{wrap, wrap_quoted}
use torrents.Go.Exec.{ok, err, Exec, Outcome, or_else, pure, raise}
use torrents.Database.Defs.{PieceRow, PieceKey, Store, Env, call}

-- `storage.Completion`
pub record Completion : Type 0 where
  pub complete : Bool
  pub known : Bool

abbrev pub same_key : PieceKey → PieceKey → Bool
same_key a b = eqb a.info_hash b.info_hash && eqb a.index b.index

-- The cache is a Go map: `m[k]` with its second result, and `m[k] = v`.
unfoldable pub map_get : PieceKey → List (PieceKey × Bool) → Option Bool
map_get k [] = none
map_get k ((j, v) ∷ m) = if same_key j k then some v else map_get k m

unfoldable pub map_set : PieceKey → Bool → List (PieceKey × Bool) → List (PieceKey × Bool)
map_set k v [] = (k, v) ∷ []
map_set k v ((j, w) ∷ m) = if same_key j k then (k, v) ∷ m else (j, w) ∷ map_set k v m

-- `for rows.Next()` of `Load`, with the map that is filled.
unfoldable pub load_rows :
    Env → List PieceRow → List (PieceKey × Bool) → Exec Store (List (PieceKey × Bool))
load_rows env [] loaded = pure loaded
load_rows env (r ∷ rows) loaded =
    or_else (call env) (λ e. raise (wrap "failed to scan piece completion row" e))
      (λ _ s. elim (env.from_hex_string r.info_hash) [
        | err e ↦ (err (wrap_quoted "failed to parse piece completion info hash" r.info_hash e), s)
        | ok hash ↦
            load_rows env rows
              (map_set (record { info_hash = hash; index = r.piece_index }) r.complete loaded) s
      ])

unfoldable pub load : Env → Exec Store (Unit {0})
load env =
    or_else (call env) (λ e. raise (wrap "failed to load piece completion cache" e))
      (λ _ s.
        or_else (load_rows env s.completions []) raise
          (λ loaded.
            or_else (call env) (λ e. raise (wrap "failed to read piece completion rows" e))
              (λ _ s'. (ok tt, record s' { cache = loaded })))
          s)

unfoldable pub get : PieceKey → Store → Completion
unfolding map_get
get pk s = elim (map_get pk s.cache) [
  | none ↦ record { complete = false; known = false }
  | some complete ↦ record { complete = complete; known = true }
]

-- INSERT OR REPLACE under PRIMARY KEY (info_hash, piece_index)
abbrev pub same_piece : String → ℕ → PieceRow → Bool
same_piece info_hash index r = r.info_hash == info_hash && eqb r.piece_index index

unfoldable pub replace_row : String → ℕ → Bool → List PieceRow → List PieceRow
replace_row info_hash index complete [] =
    (record { info_hash = info_hash; piece_index = index; complete = complete }) ∷ []
replace_row info_hash index complete (r ∷ rows) =
    if same_piece info_hash index r
    then (record { info_hash = info_hash; piece_index = index; complete = complete }) ∷ rows
    else r ∷ replace_row info_hash index complete rows

unfoldable pub set : Env → PieceKey → Bool → Exec Store (Unit {0})
unfolding replace_row map_set
set env pk complete =
    or_else (call env) (λ e. raise (wrap "failed to upsert piece completion" e))
      (λ _ s. (
        ok tt,
        record s {
          completions = replace_row (env.hex_string pk.info_hash) pk.index complete s.completions;
          cache = map_set pk complete s.cache;
        },
      ))

unfoldable pub forget : Env → String → Store → Store
forget env info_hash s = record s {
  cache = keep (λ e. not (env.hex_string e.0.info_hash == info_hash)) s.cache;
}

abbrev pub close : Outcome
close = ok tt

abbrev pub persistent : Bool
persistent = true
