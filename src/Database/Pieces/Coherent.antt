-- ===== src/Database/Pieces/Coherent.antt =====
-- The cache of `PieceRepository` agrees with the table `piece_completion`: `Load` establishes it,
-- `Set` keeps it, and the deletion of a torrent followed by `Forget` restores it.
use mathlib.Core.Option
use torrents.Prelude.{
  ℕ, String, Bool, not, ◌&&◌, ◌≡◌, refl, ap, ◌∙◌, Option, none, some, List, [], ◌∷◌, ◌==◌, eqb,
  eq_iff, arith, first, keep, All, if◌then◌else◌,
}
use torrents.Go.Exec.{ok}
use torrents.Database.Defs.{Hash, Row, PieceRow, PieceKey, Store, Env, tick, call, call-up}
use torrents.Database.Pieces.{
  same_key, map_get, map_set, load_rows, load, same_piece, replace_row, set, forget,
}
use torrents.Database.Torrents.{delete, delete_rows}
use torrents.Database.Torrents.Table.{row_of}
use torrents.Database.Torrents.Exact.{IsUp, delete_found}
use torrents.Database.Torrents.Order.{IsAlwaysUp}

-- The `complete` column of a piece.
abbrev pub piece_of : String → ℕ → List PieceRow → Option Bool
piece_of info_hash index rows =
    Option.map (λ r. r.complete) (first (same_piece info_hash index) rows)

-- The text of a hash parses to it.
abbrev pub IsHex : Env → Type 0
IsHex env = (h : Hash) → env.from_hex_string (env.hex_string h) ≡ ok h

abbrev pub IsCoherent : Env → Store → Type 0
IsCoherent env s =
    (pk : PieceKey)
    → map_get pk s.cache ≡ piece_of (env.hex_string pk.info_hash) pk.index s.completions

pub hex_string-injective :
    (env : Env) (h k : Hash) → IsHex env → env.hex_string h ≡ env.hex_string k → h ≡ k
hex_string-injective env h k hex e = ground (arith, hex h, hex k, ap env.from_hex_string e)

pub map_get-map_set :
    (k j : PieceKey) (v : Bool) (m : List (PieceKey × Bool))
    → map_get j (map_set k v m) ≡ (if same_key k j then some v else map_get j m)
unfolding map_get map_set
map_get-map_set k j v [] = refl
map_get-map_set k j v ((i, w) ∷ m) = ground (arith, map_get-map_set k j v m)

pub piece_of-replace_row :
    (h i : String) (n x : ℕ) (c : Bool) (rows : List PieceRow)
    → piece_of i x (replace_row h n c rows)
      ≡ (if h == i && eqb n x then some c else piece_of i x rows)
unfolding replace_row
piece_of-replace_row h i n x c [] = ground arith
piece_of-replace_row h i n x c (r ∷ rows) = ground (
  arith,
  piece_of-replace_row h i n x c rows,
  eq_iff h i,
  eq_iff r.info_hash h,
  eq_iff r.info_hash i,
)

-- Two keys are the same exactly when their texts and indices are.
same_key-hex :
    (env : Env) (k j : PieceKey)
    → IsHex env
    → same_key k j
      ≡ (env.hex_string k.info_hash == env.hex_string j.info_hash && eqb k.index j.index)
same_key-hex env k j hex = ground (
  arith,
  eq_iff (env.hex_string k.info_hash) (env.hex_string j.info_hash),
  hex_string-injective env k.info_hash j.info_hash hex,
)

-- Where the text of every hash parses to it: recording a piece keeps a cache that agrees with the
-- table in agreement with it, also when the write fails.
pub set-IsCoherent :
    (env : Env) (k : PieceKey) (c : Bool) (s : Store)
    → IsHex env
    → IsCoherent env s
    → IsCoherent env (set env k c s).1
unfolding set call
set-IsCoherent env k c s hex h j = ground (
  arith,
  h j,
  map_get-map_set k j c s.cache,
  piece_of-replace_row (env.hex_string k.info_hash) (env.hex_string j.info_hash) k.index j.index c
      s.completions,
  same_key-hex env k j hex,
)

pub map_get-keep :
    (env : Env) (h : String) (j : PieceKey) (m : List (PieceKey × Bool))
    → map_get j (keep (λ e. not (env.hex_string e.0.info_hash == h)) m)
      ≡ (if env.hex_string j.info_hash == h then none else map_get j m)
unfolding map_get
map_get-keep env h j [] = ground arith
map_get-keep env h j ((i, w) ∷ m) = ground (arith, map_get-keep env h j m)

pub piece_of-keep :
    (h i : String) (n : ℕ) (rows : List PieceRow)
    → piece_of i n (keep (λ p. not (p.info_hash == h)) rows)
      ≡ (if i == h then none else piece_of i n rows)
piece_of-keep h i n [] = ground arith
piece_of-keep h i n (r ∷ rows) =
    ground (arith, piece_of-keep h i n rows, eq_iff r.info_hash i, eq_iff r.info_hash h, eq_iff i h)

-- With both calls going through and a cache that agrees with the table: a torrent that is there is
-- deleted and its pieces are forgotten, and the trigger and `Forget` leave table and cache in
-- agreement, with no piece of the torrent known and the cached pieces of all others as they were.
pub forget-delete :
    (env : Env) (h : String) (s : Store) {r : Row}
    → IsUp env s.calls
    → row_of h s.torrents ≡ some r
    → IsCoherent env s
    → (j : PieceKey)
    → let s' = forget env h (delete env h s).1 in
      (map_get j s'.cache ≡ piece_of (env.hex_string j.info_hash) j.index s'.completions)
      × (map_get j s'.cache ≡ (if env.hex_string j.info_hash == h then none else map_get j s.cache))
unfolding forget delete_rows
forget-delete env h s up found c j = ground (
  arith,
  delete_found env h s up found,
  c j,
  map_get-keep env h j s.cache,
  piece_of-keep h (env.hex_string j.info_hash) j.index s.completions,
)

-- PRIMARY KEY (info_hash, piece_index)
abbrev pub HasUniquePieces : List PieceRow → Type 0
HasUniquePieces [] = Unit
HasUniquePieces (r ∷ rows) = (piece_of r.info_hash r.piece_index rows ≡ none) × HasUniquePieces rows

-- The info hash of a row is the text of a hash, as `Set` writes it.
abbrev pub IsWritten : Env → PieceRow → Type 0
IsWritten env r = (h : Hash) × (env.hex_string h ≡ r.info_hash)

load_rows-ok :
    (env : Env) (rows : List PieceRow) (m : List (PieceKey × Bool)) (s : Store)
    → IsHex env
    → IsAlwaysUp env
    → All (IsWritten env) rows
    → HasUniquePieces rows
    → (final : List (PieceKey × Bool)) × (n : ℕ) × (load_rows env rows m s
        ≡ (ok final, record s { calls = n }))
      × ((j : PieceKey)
          → map_get j final ≡ elim (piece_of (env.hex_string j.info_hash) j.index rows) [
            | some c ↦ some c
            | none ↦ map_get j m
          ])
unfolding load_rows
load_rows-ok env [] m s hex up w u = (m, s.calls, refl, λ j. refl)
load_rows-ok env (r ∷ rows) m s hex up (w, ws) (u, us) =
    let key : PieceKey = record { info_hash = w.0; index = r.piece_index } in
    let (final, n, runs, gets) =
      load_rows-ok env rows (map_set key r.complete m) (tick s) hex up ws us in
    (
      final,
      n,
      ground (arith, call-up env s (up s.calls), hex w.0, w.1, runs),
      λ j. ground (
        arith,
        gets j,
        map_get-map_set key j r.complete m,
        same_key-hex env key j hex,
        w.1,
        u,
        eq_iff r.info_hash (env.hex_string j.info_hash),
        eq_iff (env.hex_string w.0) (env.hex_string j.info_hash),
      ),
    )

piece-or-none : (o : Option Bool) → (elim o [ some c ↦ some c | none ↦ none ]) ≡ o
piece-or-none none = refl
piece-or-none (some c) = refl

-- Where the text of every hash parses to it and no call fails: on a table with one row for a piece,
-- whose info hashes are texts of hashes, loading succeeds, leaves the table alone and makes the cache
-- agree with it, whatever the cache was.
pub load-IsCoherent :
    (env : Env) (s : Store)
    → IsHex env
    → IsAlwaysUp env
    → All (IsWritten env) s.completions
    → HasUniquePieces s.completions
    → ((load env s).0 ≡ ok tt)
      × ((load env s).1.completions ≡ s.completions)
      × IsCoherent env (load env s).1
load-IsCoherent env s hex up w u =
    let (final, n, runs, gets) = load_rows-ok env s.completions [] (tick s) hex up w u in
    let after : Store = record s { calls = n } in
    let done : load env s ≡ (ok tt, record (tick after) { cache = final }) =
      unfold load in ground (arith, call-up env s (up s.calls), runs, call-up env after (up n)) in
    rw done (
      refl,
      refl,
      λ j.
          gets j
          ∙ unfold map_get in
            piece-or-none (piece_of (env.hex_string j.info_hash) j.index s.completions),
    )
