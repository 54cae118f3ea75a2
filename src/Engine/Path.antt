-- ===== src/Engine/Path.antt =====
-- `filepath.Join` on a directory and a name, and `os.RemoveAll`. A path is the list of its
-- components below the root.
pub mod Plain
use Prim.Native.Char.{Char, code}
use torrents.Prelude.{
  String, Bool, true, false, not, ◌&&◌, ◌||◌, List, [], ◌∷◌, ◌==◌, eqb, keep, if◌then◌else◌,
}

abbrev pub FilePath : Type 0
FilePath = List String

abbrev pub push_char : Char → List String → List String
push_char c [] = (String.◌∷◌ c String.[]) ∷ []
push_char c (w ∷ ws) = (String.◌∷◌ c w) ∷ ws

-- The texts between the slashes of a name.
unfoldable pub split_slash : String → List String
split_slash String.[] = "" ∷ []
split_slash (String.◌∷◌ c s) =
    let rest = split_slash s in if eqb (code c) b'/' then "" ∷ rest else push_char c rest

abbrev pub drop_last : List String → List String
drop_last [] = []
drop_last (x ∷ []) = []
drop_last (x ∷ y ∷ r) = x ∷ drop_last (y ∷ r)

abbrev pub push_last : List String → String → List String
push_last [] w = w ∷ []
push_last (x ∷ r) w = x ∷ push_last r w

-- `filepath.Clean` of the directory followed by the components: empty ones and `.` go, `..` takes
-- one back and stops at the root.
unfoldable pub clean_onto : FilePath → List String → FilePath
clean_onto dir [] = dir
clean_onto dir (w ∷ ws) =
    clean_onto
      (if w == "" || w == "." then dir else if w == ".." then drop_last dir else push_last dir w) ws

-- `filepath.Join(dir, name)`
unfoldable pub join : FilePath → String → FilePath
join dir name = clean_onto dir (split_slash name)

-- The path is the other one or lies below it.
unfoldable pub is_below : FilePath → FilePath → Bool
is_below [] path = true
is_below (w ∷ ws) [] = false
is_below (w ∷ ws) (v ∷ vs) = w == v && is_below ws vs

-- `os.RemoveAll(path)` on the paths that exist.
unfoldable pub remove_all : FilePath → List FilePath → List FilePath
remove_all path disk = keep (λ p. not (is_below path p)) disk

-- `os.RemoveAll` that failed on the way: what it had reached is gone.
unfoldable pub remove_some : (FilePath → Bool) → FilePath → List FilePath → List FilePath
remove_some reached path disk = keep (λ p. not (is_below path p && reached p)) disk
