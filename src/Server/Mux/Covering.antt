-- ===== src/Server/Mux/Covering.antt =====
-- Which pattern is for all that another is for, and which two fit one request.
use torrents.Prelude.{
  String, Bool, true, false, not, ◌&&◌, ◌||◌, ◌==◌, ◌≡◌, refl, sym, ◌⊎◌, List, [], ◌∷◌, arith,
  eq_iff, if◌then◌else◌, inl, inr, Bool-cases,
}
use torrents.Server.Mux.{
  Segment, literal, wildcard, Pattern, segment_fits, segments_fit, method_fits, fits,
  segment_covers, segments_cover, covers,
}

-- Whether some request fits both, and the registration of the second panics: neither is more
-- specific than the other.
abbrev segments_overlap : List Segment → Bool → List Segment → Bool → Bool
segments_overlap [] s [] t = if s then t else not t
segments_overlap [] s (q ∷ qs) t = s
segments_overlap (p ∷ ps) s [] t = t
segments_overlap (p ∷ ps) s (q ∷ qs) t =
    (segment_covers p q || segment_covers q p) && segments_overlap ps s qs t

abbrev pub overlap : Pattern → Pattern → Bool
overlap p q =
    (method_fits p.method q.method || method_fits q.method p.method)
    && segments_overlap p.segments p.subtree q.segments q.subtree

abbrev pub conflicts : Pattern → Pattern → Bool
conflicts p q = overlap p q && not (covers p q || covers q p)

pub and_true : (a b : Bool) → (a && b) ≡ true → (a ≡ true) × (b ≡ true)
and_true true b e = (refl, e)
and_true false b e = absurd (ground (arith, e))

segment_overlap :
    (p q : Segment) (x : String)
    → segment_fits p x ≡ true
    → segment_fits q x ≡ true
    → (segment_covers p q || segment_covers q p) ≡ true
segment_overlap (literal a) (literal b) x e f =
    rw ((eq_iff a x).0 e, (eq_iff b x).0 f, (eq_iff x x).1 refl) refl
segment_overlap (literal a) wildcard x e f = rw ((eq_iff a x).0 e) f
segment_overlap wildcard (literal b) x e f = rw ((eq_iff b x).0 f, e) refl
segment_overlap wildcard wildcard x e f = refl

segments_overlap_lem :
    (ps : List Segment) (s : Bool) (qs : List Segment) (t : Bool) (path : List String)
    → segments_fit ps s path ≡ true
    → segments_fit qs t path ≡ true
    → segments_overlap ps s qs t ≡ true
segments_overlap_lem [] true [] true path e f = refl
segments_overlap_lem [] false [] false path e f = refl
segments_overlap_lem [] true [] false [] e f = e
segments_overlap_lem [] true [] false (x ∷ path) e f = f
segments_overlap_lem [] false [] true [] e f = f
segments_overlap_lem [] false [] true (x ∷ path) e f = e
segments_overlap_lem [] s (q ∷ qs) t [] e f = absurd (ground (arith, f))
segments_overlap_lem [] s (q ∷ qs) t (x ∷ path) e f = e
segments_overlap_lem (p ∷ ps) s [] t [] e f = absurd (ground (arith, e))
segments_overlap_lem (p ∷ ps) s [] t (x ∷ path) e f = f
segments_overlap_lem (p ∷ ps) s (q ∷ qs) t [] e f = absurd (ground (arith, e))
segments_overlap_lem (p ∷ ps) s (q ∷ qs) t (x ∷ path) e f =
    let (e1, e2) = and_true _ _ e in
    let (f1, f2) = and_true _ _ f in
    rw (segment_overlap p q x e1 f1) (segments_overlap_lem ps s qs t path e2 f2)

method_cases : (p m : String) → method_fits p m ≡ true → (p ≡ m) ⊎ ((p ≡ "GET") × (m ≡ "HEAD"))
method_cases p m e = elim (Bool-cases (p == m)) [
  | inl same ↦ inl ((eq_iff p m).0 same)
  | inr other ↦
      let (g, h) = and_true (p == "GET") (m == "HEAD") (ground (arith, e, other)) in
      inr ((eq_iff p "GET").0 g, (eq_iff m "HEAD").0 h)
]

method_overlap :
    (p q m : String)
    → method_fits p m ≡ true
    → method_fits q m ≡ true
    → (method_fits p q || method_fits q p) ≡ true
method_overlap p q m e f = elim (method_cases p m e) [
  | inl a ↦ elim (method_cases q m f) [
    | inl b ↦ rw (a, b, (eq_iff m m).1 refl) refl
    | inr (b, c) ↦ rw (a, b, c) refl
  ]
  | inr (a, b) ↦ elim (method_cases q m f) [
    | inl c ↦ rw (a, c, b) refl
    | inr (c, d) ↦ rw (a, c) refl
  ]
]

pub overlap_lem :
    (m : String) (path : List String) (p q : Pattern)
    → fits m path p ≡ true
    → fits m path q ≡ true
    → overlap p q ≡ true
overlap_lem m path p q e f =
    let (e1, e2) = and_true _ _ e in
    let (f1, f2) = and_true _ _ f in
    rw (method_overlap p.method q.method m e1 f1)
      (segments_overlap_lem p.segments p.subtree q.segments q.subtree path e2 f2)

segment_covers_trans :
    (p q r : Segment)
    → segment_covers p q ≡ true
    → segment_covers q r ≡ true
    → segment_covers p r ≡ true
segment_covers_trans (literal a) (literal b) (literal c) e f = rw ((eq_iff a b).0 e) f
segment_covers_trans (literal a) (literal b) wildcard e f = f
segment_covers_trans (literal a) wildcard r e f = absurd (ground (arith, e))
segment_covers_trans wildcard (literal b) (literal c) e f = rw (sym ((eq_iff b c).0 f)) e
segment_covers_trans wildcard (literal b) wildcard e f = refl
segment_covers_trans wildcard wildcard r e f = f

segments_cover_trans :
    (ps : List Segment) (s : Bool) (qs : List Segment) (t : Bool) (rs : List Segment) (u : Bool)
    → segments_cover ps s qs t ≡ true
    → segments_cover qs t rs u ≡ true
    → segments_cover ps s rs u ≡ true
segments_cover_trans [] s [] t [] u e f = ground (arith, e, f)
segments_cover_trans [] s [] t (r ∷ rs) u e f = ground (arith, e, f)
segments_cover_trans [] s (q ∷ qs) t [] u e f = absurd (ground (arith, f))
segments_cover_trans [] s (q ∷ qs) t (r ∷ rs) u e f = e
segments_cover_trans (p ∷ ps) s [] t rs u e f = absurd (ground (arith, e))
segments_cover_trans (p ∷ ps) s (q ∷ qs) t [] u e f = absurd (ground (arith, f))
segments_cover_trans (p ∷ ps) s (q ∷ qs) t (r ∷ rs) u e f =
    let (e1, e2) = and_true _ _ e in
    let (f1, f2) = and_true _ _ f in
    rw (segment_covers_trans p q r e1 f1) (segments_cover_trans ps s qs t rs u e2 f2)

method_trans :
    (p q r : String) → method_fits p q ≡ true → method_fits q r ≡ true → method_fits p r ≡ true
method_trans p q r e f = elim (method_cases p q e) [
  | inl a ↦ rw a f
  | inr (a, b) ↦ elim (method_cases q r f) [
    | inl c ↦ rw (a, sym c, b) refl
    | inr (c, d) ↦ rw (a, d) refl
  ]
]

pub covers_trans : (p q r : Pattern) → covers p q ≡ true → covers q r ≡ true → covers p r ≡ true
covers_trans p q r e f =
    let (e1, e2) = and_true _ _ e in
    let (f1, f2) = and_true _ _ f in
    rw (method_trans p.method q.method r.method e1 f1)
      (segments_cover_trans p.segments p.subtree q.segments q.subtree r.segments r.subtree e2 f2)

segments_cover_refl : (ps : List Segment) (s : Bool) → segments_cover ps s ps s ≡ true
segments_cover_refl [] true = refl
segments_cover_refl [] false = refl
segments_cover_refl (literal a ∷ ps) s = rw ((eq_iff a a).1 refl) (segments_cover_refl ps s)
segments_cover_refl (wildcard ∷ ps) s = segments_cover_refl ps s

pub covers_refl : (p : Pattern) → covers p p ≡ true
covers_refl p = rw ((eq_iff p.method p.method).1 refl) (segments_cover_refl p.segments p.subtree)

segment_covers-fits :
    (p q : Segment) (x : String)
    → segment_covers p q ≡ true
    → segment_fits q x ≡ true
    → segment_fits p x ≡ true
segment_covers-fits (literal a) (literal b) x e f = rw ((eq_iff a b).0 e) f
segment_covers-fits (literal a) wildcard x e f = absurd (ground (arith, e))
segment_covers-fits wildcard (literal b) x e f = rw (sym ((eq_iff b x).0 f)) e
segment_covers-fits wildcard wildcard x e f = f

segments_cover-fit :
    (ps : List Segment) (s : Bool) (qs : List Segment) (t : Bool) (path : List String)
    → segments_cover ps s qs t ≡ true
    → segments_fit qs t path ≡ true
    → segments_fit ps s path ≡ true
segments_cover-fit [] s [] t [] e f = ground (arith, e, f)
segments_cover-fit [] s [] t (x ∷ path) e f = ground (arith, e, f)
segments_cover-fit [] s (q ∷ qs) t [] e f = absurd (ground (arith, f))
segments_cover-fit [] s (q ∷ qs) t (x ∷ path) e f = e
segments_cover-fit (p ∷ ps) s [] t path e f = absurd (ground (arith, e))
segments_cover-fit (p ∷ ps) s (q ∷ qs) t [] e f = absurd (ground (arith, f))
segments_cover-fit (p ∷ ps) s (q ∷ qs) t (x ∷ path) e f =
    let (e1, e2) = and_true _ _ e in
    let (f1, f2) = and_true _ _ f in
    rw (segment_covers-fits p q x e1 f1) (segments_cover-fit ps s qs t path e2 f2)

-- What `covers` means: each request that fits the covered pattern fits the other.
pub covers-fits :
    (m : String) (path : List String) (p q : Pattern)
    → covers p q ≡ true
    → fits m path q ≡ true
    → fits m path p ≡ true
covers-fits m path p q e f =
    let (e1, e2) = and_true _ _ e in
    let (f1, f2) = and_true _ _ f in
    rw (method_trans p.method q.method m e1 f1)
      (segments_cover-fit p.segments p.subtree q.segments q.subtree path e2 f2)
