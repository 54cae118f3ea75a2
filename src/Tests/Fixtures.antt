-- ===== src/Tests/Fixtures.antt =====
-- A database that never fails, a toy spelling of hashes, and a toy torrent client.
use Prim.Native.String.{count}
use text.Mathlib.TextLemmas.{length-nil, length-cons}
use torrents.Prelude.{
  ℕ, zero, suc, String, Bool, true, false, ◌≡◌, refl, ap, ◌∙◌, none, some, [], ◌∷◌, arith, eqb,
  if◌then◌else◌, ◌==◌,
}
use torrents.Go.Errors.{plain}
use torrents.Go.Exec.{ok, err}
use torrents.Go.Time.{Time}
use torrents.Database.Defs.{Row, PieceRow, Store, Env, Hash, format_time}
use torrents.Database.Pieces.Coherent.{IsHex}
use torrents.Database.Torrents.Order.{IsAlwaysUp}
use torrents.Database.Torrents.Valid.{IsValid, IsClock, HasTime, parse_time-format_time}
use torrents.Engine.Path.{FilePath}
use torrents.Engine.Defs.{World, Client}
use torrents.Service.Frame.{SparesTable}

-- The text of a hash: as many letters as it counts.
abbrev pub unary : ℕ → String
unary zero = String.[]
unary (suc n) = String.◌∷◌ "a" (unary n)

count-unary : (n : ℕ) → count (unary n) ≡ n
count-unary zero = length-nil
count-unary (suc n) = length-cons "a" (unary n) ∙ ap suc (count-unary n)

abbrev pub noon : Time
noon = record { seconds = 43200; nanos = 5000 }

abbrev pub toy_env : Env
toy_env = record {
  fault = λ n. none;
  now = λ n. record { seconds = n; nanos = 5000 };
  hex_string = unary;
  from_hex_string = λ s. ok (count s);
}

pub toy_env-IsAlwaysUp : IsAlwaysUp toy_env
toy_env-IsAlwaysUp n = refl

pub toy_env-IsClock : IsClock toy_env
toy_env-IsClock n = ground arith

pub toy_env-IsHex : IsHex toy_env
toy_env-IsHex h = ap ok (count-unary h)

abbrev pub row : String → Bool → Row
row h paused = record {
  info_hash = h;
  magnet = "magnet:?xt=urn:btih:a";
  label = "films";
  target_dir = "";
  is_paused = paused;
  name = "film";
  length = 10;
  bytes_completed = 4;
  created_at = format_time noon;
  updated_at = format_time noon;
}

abbrev pub piece : String → ℕ → Bool → PieceRow
piece h n c = record { info_hash = h; piece_index = n; complete = c }

abbrev pub toy_store : Store
toy_store = record {
  torrents = row "a" false ∷ row "aa" true ∷ [];
  completions = piece "a" 0 true ∷ piece "aa" 3 false ∷ [];
  cache = [];
  calls = 0;
}

pub noon-HasTime : HasTime (format_time noon)
noon-HasTime = (noon, parse_time-format_time noon (ground arith))

pub toy_store-IsValid : IsValid toy_store.torrents
toy_store-IsValid = record {
  keys = (refl, (refl, tt));
  times = ((noon-HasTime, noon-HasTime), ((noon-HasTime, noon-HasTime), tt));
}

-- A client that tracks a set of hashes, all of whose torrents have the same name.
abbrev pub Tracked : Type 0
Tracked = Hash → Bool

abbrev pub toy_client : String → Client (World Tracked) Hash Hash
toy_client name = record {
  load_metainfo = λ s. ok (count s);
  add_magnet = λ uri w. if uri == "" then (err (plain "empty magnet"), w) else (
    ok (count uri),
    record w { client = λ k. if eqb k (count uri) then true else w.client k },
  );
  add_torrent = λ h w. (ok h, record w { client = λ k. if eqb k h then true else w.client k });
  torrent = λ h w. if w.client h then some h else none;
  got_info = λ h w. (ok tt, w);
  verify_data = λ h w. if eqb h 3 then (err (plain "disk"), w) else (ok tt, w);
  download_all = λ h w. w;
  drop = λ h w. record w { client = λ k. if eqb k h then false else w.client k };
  info_hash = λ h. h;
  name = λ h w. name;
  length = λ h w. 10;
  bytes_completed = λ h w. 4;
  active_peers = λ h w. 2;
  connected_seeders = λ h w. 1;
  files = λ h w. none;
  remove_fault = λ path w. none;
}

pub toy_client-SparesTable : (name : String) → SparesTable (toy_client name)
toy_client-SparesTable name = record {
  add_magnet = λ uri w. ground arith;
  add_torrent = λ h w. refl;
  got_info = λ h w. refl;
  verify_data = λ h w. ground arith;
  download_all = λ h w. refl;
  drop = λ h w. refl;
}

abbrev pub data_dir : FilePath
data_dir = "srv" ∷ "data" ∷ []

abbrev pub toy_world : World Tracked
toy_world = record {
  store = toy_store;
  client = λ k. eqb k 1;
  disk = ("srv" ∷ "data" ∷ "film" ∷ []) ∷ ("srv" ∷ "data" ∷ "other" ∷ []) ∷ [];
}
