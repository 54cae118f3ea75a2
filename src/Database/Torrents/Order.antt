-- ===== src/Database/Torrents/Order.antt =====
-- The order in which `List` returns the rows: ORDER BY created_at over the stored texts.
use mathlib.Core.List.{Perm}
use mathlib.Core.List.Perm
use torrents.Prelude.{
  ℕ, ◌<◌, String, true, false, ◌≡◌, refl, ◌≢◌, none, inl, inr, Bool-cases, List, [], ◌∷◌, arith,
  map, All,
}
use torrents.Go.Exec.{ok}
use torrents.Go.Time.{Time, Stamp, stamp_le, text_le, time_le}
use torrents.Database.Defs.{Row, Torrent, Store, Env, tick, call-up, format_time}
use torrents.Database.Torrents.{
  insert_by_created_at, order_by_created_at, scan_torrent, scan_rows, list,
}
use torrents.Database.Torrents.Valid.{IsValid, HasTimes}

text_le-total : (xs ys : List ℕ) → text_le xs ys ≡ false → text_le ys xs ≡ true
unfolding text_le
text_le-total [] ys e = cc
text_le-total (x ∷ xs) [] e = refl
text_le-total (x ∷ xs) (y ∷ ys) e = ground (arith, text_le-total xs ys)

stamp_le-total : (a b : Stamp) → stamp_le a b ≡ false → stamp_le b a ≡ true
unfolding stamp_le
stamp_le-total a b e = ground (arith, text_le-total a.fraction b.fraction)

-- Each row is followed by one whose text is not smaller.
abbrev pub IsOrdered : List Row → Type 0
IsOrdered [] = Unit
IsOrdered (r ∷ []) = Unit
IsOrdered (r ∷ q ∷ rows) = (stamp_le r.created_at q.created_at ≡ true) × IsOrdered (q ∷ rows)

insert-IsOrdered :
    (r : Row) (rows : List Row) → IsOrdered rows → IsOrdered (insert_by_created_at r rows)
unfolding insert_by_created_at
insert-IsOrdered r [] o = tt
insert-IsOrdered r (q ∷ []) o = ground (arith, stamp_le-total r.created_at q.created_at)
insert-IsOrdered r (q ∷ p ∷ rows) o =
    ground (arith, stamp_le-total r.created_at q.created_at, insert-IsOrdered r (p ∷ rows) o.1)

pub order-IsOrdered : (rows : List Row) → IsOrdered (order_by_created_at rows)
unfolding order_by_created_at
order-IsOrdered [] = tt
order-IsOrdered (r ∷ rows) = insert-IsOrdered r (order_by_created_at rows) (order-IsOrdered rows)

insert-perm : (r : Row) (rows : List Row) → Perm (insert_by_created_at r rows) (r ∷ rows)
unfolding insert_by_created_at
insert-perm r [] = Perm.refl (r ∷ [])
insert-perm r (q ∷ rows) = elim (Bool-cases (stamp_le r.created_at q.created_at)) [
  | inl first ↦ rw first (Perm.refl (r ∷ q ∷ rows))
  | inr later ↦ rw later (Perm.trans (Perm.cons q (insert-perm r rows)) (Perm.swap r q rows))
]

pub order-perm : (rows : List Row) → Perm (order_by_created_at rows) rows
unfolding order_by_created_at
order-perm [] = Perm.refl []
order-perm (r ∷ rows) =
    Perm.trans (insert-perm r (order_by_created_at rows)) (Perm.cons r (order-perm rows))

-- No call fails.
abbrev pub IsAlwaysUp : Env → Type 0
IsAlwaysUp env = (n : ℕ) → env.fault n ≡ none

-- The info hashes of what a query returns, and of the rows.
abbrev pub hashes : List Torrent → List String
hashes = map (λ t. t.info_hash)

abbrev pub row_hashes : List Row → List String
row_hashes = map (λ r. r.info_hash)

pub scan_torrent-ok :
    (r : Row) → HasTimes r → (t : Torrent) × (scan_torrent r ≡ ok t) × (t.info_hash ≡ r.info_hash)
unfolding scan_torrent
scan_torrent-ok r h = (
  record {
    info_hash = r.info_hash;
    magnet = r.magnet;
    label = r.label;
    target_dir = r.target_dir;
    paused = r.is_paused;
    name = r.name;
    length = r.length;
    bytes_completed = r.bytes_completed;
    created_at = h.0.0;
    updated_at = h.1.0;
  },
  ground arith,
  refl,
)

scan_rows-ok :
    (env : Env) (rows : List Row) (s : Store)
    → IsAlwaysUp env
    → All HasTimes rows
    → (ts : List Torrent) × ((scan_rows env rows s).0 ≡ ok ts) × (hashes ts ≡ row_hashes rows)
unfolding scan_rows
scan_rows-ok env [] s up h = ([], refl, refl)
scan_rows-ok env (r ∷ rows) s up h =
    let (t, scanned, same) = scan_torrent-ok r h.0 in
    let (ts, rest, sames) = scan_rows-ok env rows (tick s) up h.1 in
    (t ∷ ts, ground (arith, call-up env s (up s.calls), scanned, rest), cc (same, sames))

insert-All :
    (r : Row) (rows : List Row)
    → HasTimes r
    → All HasTimes rows
    → All HasTimes (insert_by_created_at r rows)
unfolding insert_by_created_at
insert-All r [] t h = (t, tt)
insert-All r (q ∷ rows) t h = elim (Bool-cases (stamp_le r.created_at q.created_at)) [
  | inl first ↦ rw first (t, (h.0, h.1))
  | inr later ↦ rw later (h.0, insert-All r rows t h.1)
]

pub order-All : (rows : List Row) → All HasTimes rows → All HasTimes (order_by_created_at rows)
unfolding order_by_created_at
order-All [] h = tt
order-All (r ∷ rows) h = insert-All r (order_by_created_at rows) h.0 (order-All rows h.1)

-- On a valid table, with no call failing, `list` succeeds and returns one torrent for each row:
-- their info hashes are those of a permutation of the table in which each row is followed by one
-- whose `created_at` text is not smaller.
pub list-ok :
    (env : Env) (s : Store)
    → IsAlwaysUp env
    → IsValid s.torrents
    → (ts : List Torrent) × (rows : List Row) × ((list env s).0 ≡ ok ts)
      × (hashes ts ≡ row_hashes rows)
      × Perm rows s.torrents
      × IsOrdered rows
unfolding list
list-ok env s up v =
    let rows = order_by_created_at s.torrents in
    let (ts, scanned, same) = scan_rows-ok env rows (tick s) up (order-All s.torrents v.times) in
    let after = (scan_rows env rows (tick s)).1 in
    (
      ts,
      rows,
      ground (arith, call-up env s (up s.calls), scanned, call-up env after (up after.calls)),
      same,
      order-perm s.torrents,
      order-IsOrdered s.torrents,
    )

-- Two times in different seconds: their texts are in the order of the times.
pub stamp_le-time_le :
    (t u : Time) → t.seconds ≢ u.seconds → stamp_le (format_time t) (format_time u) ≡ time_le t u
unfolding stamp_le time_le format_time
stamp_le-time_le t u h = ground arith

-- A time on the full second comes before any other time in its second, and the texts of the two
-- are in the opposite order: `Z` follows the point.
pub text_order_reversed :
    (seconds nanos : ℕ)
    → 0 < nanos
    → let whole : Time = record { seconds = seconds; nanos = 0 } in
      let later : Time = record { seconds = seconds; nanos = nanos } in
      (time_le whole later ≡ true)
      × (time_le later whole ≡ false)
      × (stamp_le (format_time whole) (format_time later) ≡ false)
      × (stamp_le (format_time later) (format_time whole) ≡ true)
unfolding stamp_le time_le format_time text_le
text_order_reversed seconds nanos h = ground arith
