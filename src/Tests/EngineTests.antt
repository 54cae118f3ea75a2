-- ===== src/Tests/EngineTests.antt =====
-- The engine's theorems on the toy client.
use mathlib.Core.Path.{subst}
use torrents.Prelude.{
  ℕ, true, false, ◌≡◌, refl, none, some, [], ◌∷◌, arith, eqb, ltb, if◌then◌else◌,
}
use torrents.Go.Exec.{ok}
use torrents.Database.Defs.{Hash}
use torrents.Engine.Path.{FilePath, join, split_slash, clean_onto, is_below}
use torrents.Engine.Path.Plain.{IsPlain, is_on}
use torrents.Engine.Defs as Engine
use torrents.Engine.Defs.{err_not_found}
use torrents.Engine.Removal.{IsApart, remove_keeps_files, remove_spares, remove_dot_wipes}
use torrents.Engine.Adding.{Started, add_magnet-Started}
use torrents.Tests.Fixtures.{toy_env, toy_client, toy_world, data_dir, Tracked}

remove_keeps_files_example :
    (Engine.remove toy_env (toy_client "film") data_dir "a" false toy_world).1.disk ≡ toy_world.disk
remove_keeps_files_example =
    remove_keeps_files toy_env (toy_client "film") data_dir "a" toy_world (λ t w. refl)

film-IsPlain : IsPlain "film"
film-IsPlain = record {
  no_slash = (refl, (refl, (refl, (refl, tt))));
  not_empty = refl;
  not_dot = refl;
  not_dots = refl;
}

abbrev other : FilePath
other = "srv" ∷ "data" ∷ "other" ∷ []

-- Two torrents of different names are tracked; what the other one has downloaded stays.
abbrev two_names : Engine.Client (Engine.World Tracked) Hash Hash
two_names = record (toy_client "film") {
  torrent = λ h w. if ltb h 3 then some h else none;
  name = λ h w. if eqb h 1 then "film" else "other";
}

first-IsApart : IsApart toy_env two_names data_dir other toy_world 1
unfolding is_below
first-IsApart = (film-IsPlain, refl)

apart :
    (k t : ℕ)
    → toy_env.from_hex_string "a" ≡ ok k
    → two_names.torrent k toy_world ≡ some t
    → IsApart toy_env two_names data_dir other toy_world t
apart k t parsed tracked =
    subst (IsApart toy_env two_names data_dir other toy_world) {x = 1} {y = t}
      (ground (arith, parsed, tracked)) first-IsApart

remove_spares_example :
    is_on other (Engine.remove toy_env two_names data_dir "a" true toy_world).1.disk
    ≡ is_on other toy_world.disk
remove_spares_example =
    remove_spares toy_env two_names data_dir "a" true toy_world other (λ t w. refl) apart

-- The torrent "a" is called "."; what another torrent has downloaded is gone.
remove_dot_wipes_example :
    is_on other (Engine.remove toy_env (toy_client ".") data_dir "a" true toy_world).1.disk ≡ false
unfolding Engine.find join split_slash clean_onto is_below
remove_dot_wipes_example =
    remove_dot_wipes toy_env (toy_client ".") data_dir "a" toy_world 1 other refl refl refl
      (λ p w. refl) refl

-- Verifying the torrent 3 fails.
add_magnet-Started_example :
    Started toy_env
      (toy_client "film")
      3
      (Engine.add_magnet toy_env (toy_client "film") data_dir "aaa" toy_world)
add_magnet-Started_example =
    add_magnet-Started toy_env (toy_client "film") data_dir "aaa" toy_world _ 3 refl
      (λ t w. ground arith)
