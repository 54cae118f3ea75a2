-- ===== src/Engine/Path/Plain.antt =====
-- Paths that `filepath.Join` makes from names without a slash, and what `os.RemoveAll` spares.
use Prim.Native.Char.{code}
use Prim.Native.String.{count, ◌++◌ as append}
use text.Mathlib.TextLemmas.{length-append, cons-append, nil-append}
use torrents.Prelude.{
  ◌<◌, ◌≤◌, String, Bool, true, false, ◌&&◌, ◌||◌, ◌≡◌, ◌≢◌, refl, ap, List, [], ◌∷◌, ◌==◌, eq_iff,
  arith, eqb, keep,
}
use torrents.Engine.Path.{FilePath, split_slash, push_last, clean_onto, join, is_below}

abbrev pub HasNoSlash : String → Type 0
HasNoSlash String.[] = Unit
HasNoSlash (String.◌∷◌ c s) = (eqb (code c) b'/' ≡ false) × HasNoSlash s

-- A name of one component, as torrents ordinarily have.
pub record IsPlain (name : String) : Type 0 where
  pub no_slash : HasNoSlash name
  pub not_empty : (name == "") ≡ false
  pub not_dot : (name == ".") ≡ false
  pub not_dots : (name == "..") ≡ false

split_slash-HasNoSlash : (s : String) → HasNoSlash s → split_slash s ≡ s ∷ []
unfolding split_slash
split_slash-HasNoSlash String.[] h = refl
split_slash-HasNoSlash (String.◌∷◌ c s) h = rw (h.0, split_slash-HasNoSlash s h.1) refl

append-HasNoSlash : (s t : String) → HasNoSlash s → HasNoSlash t → HasNoSlash (append s t)
append-HasNoSlash String.[] t hs ht = rw (nil-append t) ht
append-HasNoSlash (String.◌∷◌ c s) t hs ht =
    rw (cons-append c s t) (hs.0, append-HasNoSlash s t hs.1 ht)

eq-false_of_count : (s t : String) → count s ≢ count t → (s == t) ≡ false
eq-false_of_count s t h = ground (arith, eq_iff s t, ap count)

count-part : (name : String) → 2 < count (append name ".part")
count-part name = omega (arith, length-append name ".part")

part-ne : (name t : String) → count t ≤ 2 → (append name ".part" == t) ≡ false
part-ne name t h = eq-false_of_count (append name ".part") t (omega (arith, count-part name))

pub part-IsPlain : (name : String) → IsPlain name → IsPlain (append name ".part")
part-IsPlain name p = record {
  no_slash = append-HasNoSlash name ".part" p.no_slash (refl, (refl, (refl, (refl, (refl, tt)))));
  not_empty = part-ne name "" (omega arith);
  not_dot = part-ne name "." (omega arith);
  not_dots = part-ne name ".." (omega arith);
}

pub join-IsPlain :
    (dir : FilePath) (name : String) → IsPlain name → join dir name ≡ push_last dir name
unfolding join clean_onto
join-IsPlain dir name p =
    rw (split_slash-HasNoSlash name p.no_slash) (rw (p.not_empty, p.not_dot, p.not_dots) refl)

-- `path` is among the paths on disk.
unfoldable pub is_on : FilePath → List FilePath → Bool
is_on path [] = false
is_on path (p ∷ disk) = (is_below path p && is_below p path) || is_on path disk

is_below_antisymm : (p q : FilePath) → (is_below p q && is_below q p) ≡ true → p ≡ q
unfolding is_below
is_below_antisymm [] [] h = refl
is_below_antisymm [] (v ∷ vs) h = cc
is_below_antisymm (w ∷ ws) [] h = cc
is_below_antisymm (w ∷ ws) (v ∷ vs) h =
    ground (arith, is_below_antisymm ws vs, eq_iff w v, eq_iff v w)

pub is_on-keep :
    (path : FilePath) (f : FilePath → Bool) (disk : List FilePath)
    → is_on path (keep f disk) ≡ (f path && is_on path disk)
unfolding is_on
is_on-keep path f [] = ground arith
is_on-keep path f (p ∷ disk) =
    ground (arith, is_on-keep path f disk, is_below_antisymm path p, ap f)
