-- ===== src/Server/Mux/Precedence.antt =====
-- Which of several patterns answers a request.
use mathlib.Core.Path.{subst}
use mathlib.Core.List.{Memᴰ}
use mathlib.Core.List.Memᴰ.{head, tail}
use torrents.Prelude.{
  String, Bool, true, false, not, ◌&&◌, ◌||◌, ◌≡◌, refl, sym, Option, none, some, List, [], ◌∷◌,
  All, arith, inl, inr, Bool-cases,
}
use torrents.Server.Mux.{Pattern, fits, covers, better, choose}
use torrents.Server.Mux.Covering.{conflicts, overlap_lem, covers_trans, covers_refl}

-- No two patterns of the table conflict, so that no registration panics.
abbrev pub AreCompatible : {H : Type 0} → List (Pattern × H) → Type 0
AreCompatible [] = Unit
AreCompatible (r ∷ rs) = All (λ q. conflicts r.0 q.0 ≡ false) rs × AreCompatible rs

abbrev pub Answers :
    {H : Type 0} → String → List String → List (Pattern × H) → Option (Pattern × H) → Type 0
Answers method path rs none = All (λ q. fits method path q.0 ≡ false) rs
Answers method path rs (some r) =
    Memᴰ r rs
    × (fits method path r.0 ≡ true)
    × All (λ q. fits method path q.0 ≡ true → covers q.0 r.0 ≡ true) rs

-- What fits no less than the pattern it competes with.
comparable :
    (m : String) (path : List String) (p q : Pattern)
    → conflicts p q ≡ false
    → fits m path p ≡ true
    → fits m path q ≡ true
    → covers q p ≡ false
    → covers p q ≡ true
comparable m path p q c e f g =
    or_true (covers p q) (covers q p) (conflict_free _ _ c (overlap_lem m path p q e f)) g
  where
    conflict_free : (a b : Bool) → (a && not b) ≡ false → a ≡ true → b ≡ true
    conflict_free a true e f = refl
    conflict_free true false e f = sym e
    conflict_free false false e f = f

    or_true : (a b : Bool) → (a || b) ≡ true → b ≡ false → a ≡ true
    or_true true b e f = refl
    or_true false true e f = sym f
    or_true false false e f = e

module _ {H : Type 0} (m : String) (path : List String) where
  never :
      (rs : List (Pattern × H)) (p : Pattern)
      → All (λ q. fits m path q.0 ≡ false) rs
      → All (λ q. fits m path q.0 ≡ true → covers q.0 p ≡ true) rs
  never [] p n = tt
  never (q ∷ rs) p (n, ns) = ((λ f. absurd (ground (arith, n, f))), never rs p ns)

  raised :
      (rs : List (Pattern × H)) (b p : Pattern)
      → covers b p ≡ true
      → All (λ q. fits m path q.0 ≡ true → covers q.0 b ≡ true) rs
      → All (λ q. fits m path q.0 ≡ true → covers q.0 p ≡ true) rs
  raised [] b p c a = tt
  raised (q ∷ rs) b p c (h, a) = ((λ f. covers_trans q.0 b p (h f) c), raised rs b p c a)

  conflict_of :
      (rs : List (Pattern × H)) (p : Pattern) (b : Pattern × H)
      → All (λ q. conflicts p q.0 ≡ false) rs
      → Memᴰ b rs
      → conflicts p b.0 ≡ false
  conflict_of [] p b a mem = elim mem [ ]
  conflict_of (q ∷ rs) p b (c, a) (head e) = rw e c
  conflict_of (q ∷ rs) p b (c, a) (tail mem) = conflict_of rs p b a mem

  better-Answers :
      (r : Pattern × H) (rs : List (Pattern × H)) (best : Option (Pattern × H))
      → All (λ q. conflicts r.0 q.0 ≡ false) rs
      → fits m path r.0 ≡ true
      → Answers m path rs best
      → Answers m path (r ∷ rs) (some (better r best))
  better-Answers r rs none c f a = (head refl, f, ((λ g. covers_refl r.0), never rs r.0 a))
  better-Answers r rs (some b) c f (mem, g, a) = elim (Bool-cases (covers b.0 r.0)) [
    | inl wider ↦
        subst (λ x. Answers m path (r ∷ rs) (some x)) {x = r} {y = better r (some b)}
          (rw wider refl) (head refl, f, ((λ h. covers_refl r.0), raised rs b.0 r.0 wider a))
    | inr narrower ↦
        subst (λ x. Answers m path (r ∷ rs) (some x)) {x = b} {y = better r (some b)}
          (rw narrower refl)
          (
            tail mem,
            g,
            ((λ h. comparable m path r.0 b.0 (conflict_of rs r.0 b c mem) f g narrower), a),
          )
  ]

  passed :
      (r : Pattern × H) (rs : List (Pattern × H)) (best : Option (Pattern × H))
      → fits m path r.0 ≡ false
      → Answers m path rs best
      → Answers m path (r ∷ rs) best
  passed r rs none f a = (f, a)
  passed r rs (some b) f (mem, g, a) = (tail mem, g, ((λ h. absurd (ground (arith, f, h))), a))

  -- Of a table none of whose patterns conflict, the pattern that answers a request is one of the
  -- table that fits it, and every other one that fits is for all that it is for; where none answers,
  -- none fits.
  pub choose-Answers :
      (rs : List (Pattern × H)) → AreCompatible rs → Answers m path rs (choose m path rs)
  unfolding choose
  choose-Answers [] c = tt
  choose-Answers (r ∷ rs) (c, cs) =
      let best = choose m path rs in
      let a = choose-Answers rs cs in
      elim (Bool-cases (fits m path r.0)) [
        | inl f ↦ rw (f, choose) (better-Answers r rs best c f a)
        | inr f ↦ rw (f, choose) (passed r rs best f a)
      ]
