-- ===== src/Database/Torrents/Table.antt =====
-- Lemmas on the table `torrent` as a list of rows: looking up a row by its info hash before and
-- after an insert, an update and a delete, and the primary key.
use torrents.Prelude.{
  ◌≤◌, String, Bool, not, ◌≡◌, refl, ◌≢◌, Option, none, some, List, [], ◌∷◌, ◌++◌, ◌==◌, eq_iff,
  arith, first, keep, change, if◌then◌else◌,
}
use mathlib.Core.Option
use torrents.Database.Defs.{Row}
use torrents.Database.Torrents.{has_hash, count_rows}

-- The row of an info hash.
abbrev pub row_of : String → List Row → Option Row
row_of info_hash rows = first (has_hash info_hash) rows

-- PRIMARY KEY (info_hash): no two rows have the same info hash.
abbrev pub HasUniqueKeys : List Row → Type 0
HasUniqueKeys [] = Unit
HasUniqueKeys (r ∷ rows) = (row_of r.info_hash rows ≡ none) × HasUniqueKeys rows

-- The columns that an UPDATE sets leave the key as it is.
abbrev pub KeepsKey : (Row → Row) → Type 0
KeepsKey f = (r : Row) → (f r).info_hash ≡ r.info_hash

pub row_of-append :
    (h : String) (rows : List Row) (r : Row)
    → row_of h (rows ++ r ∷ [])
      ≡ elim (row_of h rows) [ some q ↦ some q | none ↦ if r.info_hash == h then some r else none ]
row_of-append h [] r = refl
row_of-append h (q ∷ rows) r = ground (arith, row_of-append h rows r)

pub row_of-keep_self :
    (h : String) (rows : List Row) → row_of h (keep (λ r. not (has_hash h r)) rows) ≡ none
row_of-keep_self h [] = refl
row_of-keep_self h (q ∷ rows) = ground (arith, row_of-keep_self h rows)

pub row_of-keep_ne :
    (h j : String) (rows : List Row)
    → j ≢ h
    → row_of j (keep (λ r. not (has_hash h r)) rows) ≡ row_of j rows
row_of-keep_ne h j [] ne = refl
row_of-keep_ne h j (q ∷ rows) ne =
    ground (arith, row_of-keep_ne h j rows ne, eq_iff q.info_hash h, eq_iff q.info_hash j)

pub row_of-change_self :
    (h : String) (f : Row → Row) (rows : List Row)
    → KeepsKey f
    → row_of h (change (has_hash h) f rows) ≡ Option.map f (row_of h rows)
row_of-change_self h f [] k = refl
row_of-change_self h f (q ∷ rows) k = ground (arith, row_of-change_self h f rows k, k q)

pub row_of-change_ne :
    (h j : String) (f : Row → Row) (rows : List Row)
    → KeepsKey f
    → j ≢ h
    → row_of j (change (has_hash h) f rows) ≡ row_of j rows
row_of-change_ne h j f [] k ne = refl
row_of-change_ne h j f (q ∷ rows) k ne =
    ground
      (arith, row_of-change_ne h j f rows k ne, k q, eq_iff q.info_hash h, eq_iff q.info_hash j)

-- A key that is absent stays so under a filter and an update.
row_of-keep-none :
    (j : String) (p : Row → Bool) (rows : List Row)
    → row_of j rows ≡ none
    → row_of j (keep p rows) ≡ none
row_of-keep-none j p [] e = refl
row_of-keep-none j p (q ∷ rows) e = ground (arith, row_of-keep-none j p rows)

row_of-change-none :
    (j : String) (p : Row → Bool) (f : Row → Row) (rows : List Row)
    → KeepsKey f
    → row_of j rows ≡ none
    → row_of j (change p f rows) ≡ none
row_of-change-none j p f [] k e = refl
row_of-change-none j p f (q ∷ rows) k e = ground (arith, row_of-change-none j p f rows k, k q)

pub keep-HasUniqueKeys :
    (p : Row → Bool) (rows : List Row) → HasUniqueKeys rows → HasUniqueKeys (keep p rows)
keep-HasUniqueKeys p [] u = tt
keep-HasUniqueKeys p (q ∷ rows) u =
    ground (arith, keep-HasUniqueKeys p rows u.1, row_of-keep-none q.info_hash p rows u.0)

pub change-HasUniqueKeys :
    (p : Row → Bool) (f : Row → Row) (rows : List Row)
    → KeepsKey f
    → HasUniqueKeys rows
    → HasUniqueKeys (change p f rows)
change-HasUniqueKeys p f [] k u = tt
change-HasUniqueKeys p f (q ∷ rows) k u =
    ground (
      arith,
      change-HasUniqueKeys p f rows k u.1,
      row_of-change-none q.info_hash p f rows k u.0,
      k q,
    )

pub append-HasUniqueKeys :
    (r : Row) (rows : List Row)
    → row_of r.info_hash rows ≡ none
    → HasUniqueKeys rows
    → HasUniqueKeys (rows ++ r ∷ [])
append-HasUniqueKeys r [] e u = (refl, tt)
append-HasUniqueKeys r (q ∷ rows) e u = ground (
  arith,
  append-HasUniqueKeys r rows,
  row_of-append q.info_hash rows r,
  eq_iff q.info_hash r.info_hash,
  eq_iff r.info_hash q.info_hash,
)

-- An UPDATE and a DELETE affect a row exactly when the key is there.
pub count_rows-zero :
    (h : String) (rows : List Row) → row_of h rows ≡ none → count_rows (keep (has_hash h) rows) ≡ 0
count_rows-zero h [] e = refl
count_rows-zero h (q ∷ rows) e = ground (arith, count_rows-zero h rows)

pub count_rows-pos :
    (h : String) (rows : List Row) {r : Row}
    → row_of h rows ≡ some r
    → 1 ≤ count_rows (keep (has_hash h) rows)
count_rows-pos h [] e = cc
count_rows-pos h (q ∷ rows) {r} e = ground (arith, count_rows-pos h rows {r = r})

-- The row that a lookup returns has the key.
pub row_of-info_hash :
    (h : String) (rows : List Row) {r : Row} → row_of h rows ≡ some r → r.info_hash ≡ h
row_of-info_hash h [] e = cc
row_of-info_hash h (q ∷ rows) {r} e =
    ground (arith, row_of-info_hash h rows {r = r}, eq_iff q.info_hash h)
