-- ===== src/Server/Mux.antt =====
-- http.ServeMux as internal/server/server.go uses it: patterns with a method, literal segments, one
-- wildcard `{hash}`, `{$}` for the end of the path, and a trailing slash for all that is below.
-- A path is given as its segments: "/" is one empty segment, and a trailing slash ends in one.
pub mod Covering
pub mod Precedence
pub mod Routes
pub mod Links
pub mod ApiRoutes
pub mod Visit
pub mod Click
pub mod Opened
use torrents.Prelude.{
  String, Bool, true, false, not, ◌&&◌, ◌||◌, ◌==◌, Option, none, some, List, [], ◌∷◌,
  if◌then◌else◌,
}

pub data Segment : Type 0 where
  literal : String → Segment
  wildcard : Segment

pub record Pattern : Type 0 where
  pub method : String
  pub segments : List Segment
  pub subtree : Bool

abbrev pub segment_fits : Segment → String → Bool
segment_fits (literal a) s = a == s
segment_fits wildcard s = not (s == "")

abbrev pub segments_fit : List Segment → Bool → List String → Bool
segments_fit [] subtree [] = not subtree
segments_fit [] subtree (s ∷ path) = subtree
segments_fit (p ∷ ps) subtree [] = false
segments_fit (p ∷ ps) subtree (s ∷ path) = segment_fits p s && segments_fit ps subtree path

-- A pattern for GET is for HEAD as well.
abbrev pub method_fits : String → String → Bool
method_fits p m = p == m || (p == "GET" && m == "HEAD")

abbrev pub fits : String → List String → Pattern → Bool
fits method path p = method_fits p.method method && segments_fit p.segments p.subtree path

-- Whether the first pattern is for all that the second is for.
abbrev pub segment_covers : Segment → Segment → Bool
segment_covers (literal a) (literal b) = a == b
segment_covers (literal a) wildcard = false
segment_covers wildcard (literal b) = not (b == "")
segment_covers wildcard wildcard = true

abbrev pub segments_cover : List Segment → Bool → List Segment → Bool → Bool
segments_cover [] s [] t = if s then t else not t
segments_cover [] s (q ∷ qs) t = s
segments_cover (p ∷ ps) s [] t = false
segments_cover (p ∷ ps) s (q ∷ qs) t = segment_covers p q && segments_cover ps s qs t

abbrev pub covers : Pattern → Pattern → Bool
covers p q =
    method_fits p.method q.method && segments_cover p.segments p.subtree q.segments q.subtree

-- The value of `{hash}`.
abbrev pub path_value : List Segment → List String → String
path_value (wildcard ∷ ps) (s ∷ path) = s
path_value (literal a ∷ ps) (s ∷ path) = path_value ps path
path_value _ _ = ""

-- The most specific of the patterns that fit.
abbrev pub better : {H : Type 0} → Pattern × H → Option (Pattern × H) → Pattern × H
better r none = r
better r (some b) = if covers b.0 r.0 then r else b

unfoldable pub choose :
    {H : Type 0} → String → List String → List (Pattern × H) → Option (Pattern × H)
choose method path [] = none
choose method path (r ∷ rs) =
    let best = choose method path rs in if fits method path r.0 then some (better r best) else best
