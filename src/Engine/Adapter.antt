-- ===== src/Engine/Adapter.antt =====
-- `anacrolixClient` of internal/server/torrent/client.go: the methods that forward to the third-party
-- client. Its torrents are pointers; a nil pointer in an interface is not the nil interface.
use torrents.Prelude.{
  String, Bool, true, false, ◌≡◌, refl, Option, none, some, ◌⊎◌, inl, inr, ap, List, [], ◌∷◌,
}
use torrents.Go.Errors.{Error}
use torrents.Database.Defs.{Hash}

-- `*anacrolix.Torrent`
abbrev pub Pointer : Type 0 → Type 0
Pointer T = Option T

-- The interface `Torrent`.
pub data Interface (T : Type 0) : Type 0 where
  nil_interface : Interface T
  holding : Pointer T → Interface T

-- `*anacrolix.Client`, a parameter.
pub record Inner (S T M : Type 0) : Type 0 where
  pub add_magnet : String → S → Pointer T × Option Error × S
  pub add_torrent : M → S → Pointer T × Option Error × S
  pub torrent : Hash → S → Pointer T × Bool
  pub close : S → List Error × S

-- The test of an error before the pointer becomes an interface.
abbrev pub forwarded :
    {T S : Type 0} → Pointer T × Option Error × S → Interface T × Option Error × S
forwarded (t, some e, s) = (nil_interface, some e, s)
forwarded (t, none, s) = (holding t, none, s)

-- The test of `ok` before the pointer becomes an interface.
abbrev pub looked_up : {T : Type 0} → Pointer T × Bool → Interface T × Bool
looked_up (t, false) = (nil_interface, false)
looked_up (t, true) = (holding t, true)

abbrev pub succeeded : Option Error → Bool
succeeded none = true
succeeded (some e) = false

module _ {T : Type 0} where
  -- A torrent beside success, and the nil interface, which a caller can test for, beside failure.
  abbrev pub IsSound : Pointer T → Interface T → Bool → Type 0
  IsSound p i good =
      ((good ≡ true) × (t : T) × (p ≡ some t) × (i ≡ holding (some t)))
      ⊎ ((good ≡ false) × (i ≡ nil_interface))

  abbrev Given : Pointer T → Bool → Type 0
  Given p good = good ≡ true → (t : T) × (p ≡ some t)

  forwarded-IsSound :
      {S : Type 0} (r : Pointer T × Option Error × S)
      → Given r.0 (succeeded r.1)
      → let f = forwarded r in IsSound r.0 f.0 (succeeded f.1) × (f.1 ≡ r.1) × (f.2 ≡ r.2)
  forwarded-IsSound (p, none, s) g =
      let (t, e) = g refl in (inl (refl, t, e, ap holding e), refl, refl)
  forwarded-IsSound (p, some e, s) g = (inr (refl, refl), refl, refl)

  looked_up-IsSound :
      (r : Pointer T × Bool)
      → Given r.0 r.1
      → let f = looked_up r in IsSound r.0 f.0 f.1 × (f.1 ≡ r.1)
  looked_up-IsSound (p, true) g = let (t, e) = g refl in (inl (refl, t, e, ap holding e), refl)
  looked_up-IsSound (p, false) g = (inr (refl, refl), refl)

module _ {S T M : Type 0} (inner : Inner S T M) where
  abbrev pub add_magnet : String → S → Interface T × Option Error × S
  add_magnet uri s = forwarded (inner.add_magnet uri s)

  abbrev pub add_torrent : M → S → Interface T × Option Error × S
  add_torrent mi s = forwarded (inner.add_torrent mi s)

  abbrev pub torrent : Hash → S → Interface T × Bool
  torrent hash s = looked_up (inner.torrent hash s)

  abbrev pub close : (List Error → Error) → S → Option Error × S
  close join_errors s =
      let (errs, s') = inner.close s in
      elim errs [ [] ↦ (none, s') | e ∷ es ↦ (some (join_errors (e ∷ es)), s') ]

  -- The third-party client gives a torrent where it reports success. Where it does not, its pointer
  -- may be anything.
  pub record GivesTorrents : Type 0 where
    pub magnet :
        (uri : String) (s : S) → let r = inner.add_magnet uri s in Given r.0 (succeeded r.1)
    pub metainfo : (mi : M) (s : S) → let r = inner.add_torrent mi s in Given r.0 (succeeded r.1)
    pub lookup : (h : Hash) (s : S) → let r = inner.torrent h s in Given r.0 r.1

  -- Where the third-party client gives a torrent whenever it reports success: what the engine gets from
  -- AddMagnet, AddTorrent and Torrent is that torrent, or a nil interface where the client reports
  -- failure, whatever pointer comes beside it; and neither the report nor the state is changed.
  adapter-IsSound :
      (uri : String) (mi : M) (h : Hash) (s : S)
      → GivesTorrents
      → let m = add_magnet uri s in
        let f = add_torrent mi s in
        let t = torrent h s in
        (IsSound (inner.add_magnet uri s).0 m.0 (succeeded m.1)
          × (m.1 ≡ (inner.add_magnet uri s).1)
          × (m.2 ≡ (inner.add_magnet uri s).2))
        × (IsSound (inner.add_torrent mi s).0 f.0 (succeeded f.1)
            × (f.1 ≡ (inner.add_torrent mi s).1)
            × (f.2 ≡ (inner.add_torrent mi s).2))
        × (IsSound (inner.torrent h s).0 t.0 t.1 × (t.1 ≡ (inner.torrent h s).1))
  adapter-IsSound uri mi h s g = (
    forwarded-IsSound (inner.add_magnet uri s) (g.magnet uri s),
    forwarded-IsSound (inner.add_torrent mi s) (g.metainfo mi s),
    looked_up-IsSound (inner.torrent h s) (g.lookup h s),
  )
