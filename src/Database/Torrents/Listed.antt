-- ===== src/Database/Torrents/Listed.antt =====
-- What `List` returns for each row, and what it leaves of the tables.
use mathlib.Core.List.{Perm}
use torrents.Prelude.{◌≡◌, refl, List, [], ◌∷◌, arith, All}
use torrents.Go.Exec.{ok}
use torrents.Database.Defs.{Row, Torrent, Store, Env, tick, call-up}
use torrents.Database.Torrents.{order_by_created_at, scan_torrent, scan_rows, list}
use torrents.Database.Torrents.Valid.{IsValid, HasTimes}
use torrents.Database.Torrents.Order.{
  IsAlwaysUp, IsOrdered, scan_torrent-ok, order-All, order-perm, order-IsOrdered,
}

-- Row for row, what is scanned.
abbrev pub Scans : List Row → List Torrent → Type 0
Scans [] [] = Unit
Scans (r ∷ rows) (t ∷ ts) = (scan_torrent r ≡ ok t) × Scans rows ts
Scans [] (t ∷ ts) = ⊥
Scans (r ∷ rows) [] = ⊥

scan_rows-Scans :
    (env : Env) (rows : List Row) (s : Store)
    → IsAlwaysUp env
    → All HasTimes rows
    → (ts : List Torrent) × ((scan_rows env rows s).0 ≡ ok ts)
      × ((scan_rows env rows s).1.torrents ≡ s.torrents)
      × Scans rows ts
unfolding scan_rows
scan_rows-Scans env [] s up h = ([], refl, refl, tt)
scan_rows-Scans env (r ∷ rows) s up h =
    let (t, scanned, same) = scan_torrent-ok r h.0 in
    let (ts, rest, kept, others) = scan_rows-Scans env rows (tick s) up h.1 in
    (
      t ∷ ts,
      ground (arith, call-up env s (up s.calls), scanned, rest),
      ground (arith, call-up env s (up s.calls), scanned, rest, kept),
      (scanned, others),
    )

pub list-Scans :
    (env : Env) (s : Store)
    → IsAlwaysUp env
    → IsValid s.torrents
    → (ts : List Torrent) × (rows : List Row) × ((list env s).0 ≡ ok ts)
      × ((list env s).1.torrents ≡ s.torrents)
      × Scans rows ts
      × Perm rows s.torrents
      × IsOrdered rows
unfolding list
list-Scans env s up v =
    let rows = order_by_created_at s.torrents in
    let (ts, scanned, kept, all) =
      scan_rows-Scans env rows (tick s) up (order-All s.torrents v.times) in
    let after = (scan_rows env rows (tick s)).1 in
    (
      ts,
      rows,
      ground (arith, call-up env s (up s.calls), scanned, call-up env after (up after.calls)),
      ground (arith, call-up env s (up s.calls), scanned, call-up env after (up after.calls), kept),
      all,
      order-perm s.torrents,
      order-IsOrdered s.torrents,
    )
