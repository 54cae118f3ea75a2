-- ===== src/Engine/Removal.antt =====
-- `Engine.Remove`: which paths it deletes, and what it does with a hash that is not tracked.
use Prim.Native.String.{◌++◌ as append}
use torrents.Prelude.{
  String, Bool, true, false, not, ◌&&◌, ◌≡◌, refl, ◌∙◌, none, some, ◌⊎◌, inl, inr, Option-cases,
  List, [], ◌∷◌, ◌==◌, arith, if◌then◌else◌,
}
use torrents.Go.Errors.{Error}
use torrents.Go.Exec.{Result, ok, err, Result-cases}
use torrents.Database.Defs.{Hash, Env}
use torrents.Engine.Path.{FilePath, join, is_below, remove_all, remove_some, push_last}
use torrents.Engine.Path.Plain.{IsPlain, part-IsPlain, join-IsPlain, is_on, is_on-keep}
use torrents.Engine.Defs.{
  World, Client, find, with_torrent, remove_paths, remove, remove_torrent, progress_of, files_of,
  snapshot, files, err_not_found,
}

-- The torrent client has no hand in the paths below the data directory when a torrent is dropped.
abbrev pub DropSparesDisk : {C T M : Type 0} → Client (World C) T M → Type 0
DropSparesDisk {C} {T} client = (t : T) (w : World C) → (client.drop t w).disk ≡ w.disk

abbrev pub lies_below : FilePath → List FilePath → Bool
lies_below path [] = false
lies_below path (p ∷ ps) = if is_below p path then true else lies_below path ps

module _ {C T M : Type 0} (env : Env) (client : Client (World C) T M) (data_dir : FilePath) where
  module _ {A : Type 0} (hash : String) (k : T → World C → Result A × World C) (w : World C) where
    pub with_torrent_invalid :
        {e : Error}
        → find env client data_dir hash w ≡ err e
        → with_torrent env client data_dir hash k w ≡ (err e, w)
    unfolding with_torrent
    with_torrent_invalid h = rw (h, with_torrent) refl

    pub with_torrent_missing :
        find env client data_dir hash w ≡ ok none
        → with_torrent env client data_dir hash k w ≡ (err err_not_found, w)
    unfolding with_torrent
    with_torrent_missing h = rw (h, with_torrent) refl

    pub with_torrent_found :
        {t : T}
        → find env client data_dir hash w ≡ ok (some t)
        → with_torrent env client data_dir hash k w ≡ k t w
    unfolding with_torrent
    with_torrent_found h = rw (h, with_torrent) refl

  -- The three ways in which the lookup of a hash ends.
  pub find-cases :
      (hash : String) (w : World C)
      → ((e : Error) × (find env client data_dir hash w ≡ err e))
        ⊎ ((find env client data_dir hash w ≡ ok none)
            ⊎ ((t : T) × (find env client data_dir hash w ≡ ok (some t))))
  find-cases hash w = elim (Result-cases (find env client data_dir hash w)) [
    | inr (e, h) ↦ inl (e, h)
    | inl (o, h) ↦ elim (Option-cases o) [
      | inl n ↦ inr (inl (cc (h, n)))
      | inr (t, n) ↦ inr (inr (t, cc (h, n)))
    ]
  ]

  -- A path that lies below none of those that are removed stays, also where a removal fails.
  remove_paths-spares :
      (path : FilePath) (paths : List FilePath) (w : World C)
      → lies_below path paths ≡ false
      → is_on path (remove_paths env client data_dir paths w).1.disk ≡ is_on path w.disk
  unfolding remove_paths remove_all remove_some
  remove_paths-spares path [] w h = refl
  remove_paths-spares path (p ∷ ps) w h = elim (Option-cases (client.remove_fault p w)) [
    | inl n ↦
        rw (n, remove_paths)
          (remove_paths-spares path ps (record w { disk = remove_all p w.disk }) (ground arith)
            ∙ is_on-keep path (λ q. not (is_below p q)) w.disk
            ∙ ground arith)
    | inr ((e, reached), n) ↦
        rw (n, remove_paths)
          (is_on-keep path (λ q. not (is_below p q && reached q)) w.disk ∙ ground arith)
  ]

  -- A property of the world that the torrent's own step keeps is kept by the whole call.
  pub with_torrent_keeps :
      {A : Type 0} (P : World C → Type 0) (hash : String) (k : T → World C → Result A × World C)
      (w : World C)
      → P w
      → ((t : T) → P (k t w).1)
      → P (with_torrent env client data_dir hash k w).1
  with_torrent_keeps P hash k w p q = elim (find-cases hash w) [
    | inl (e, h) ↦ rw (with_torrent_invalid hash k w h) p
    | inr (inl h) ↦ rw (with_torrent_missing hash k w h) p
    | inr (inr (t, h)) ↦ rw (with_torrent_found hash k w h) (q t)
  ]

  -- Where dropping a torrent leaves the disk alone, removing without `deleteFiles` changes nothing
  -- on disk, whatever the torrent is called and however the call ends.
  pub remove_keeps_files :
      (hash : String) (w : World C)
      → DropSparesDisk client
      → (remove env client data_dir hash false w).1.disk ≡ w.disk
  unfolding remove remove_torrent
  remove_keeps_files hash w d =
      with_torrent_keeps (λ w'. w'.disk ≡ w.disk) hash (remove_torrent env client data_dir false) w
        refl (λ t. d t w)

  remove_torrent-spares :
      (delete_files : Bool) (t : T) (w : World C) (path : FilePath)
      → DropSparesDisk client
      → IsPlain (client.name t w)
      → lies_below path (
          push_last data_dir (client.name t w)
          ∷ push_last data_dir (append (client.name t w) ".part")
          ∷ [])
        ≡ false
      → is_on path (remove_torrent env client data_dir delete_files t w).1.disk ≡ is_on path w.disk
  unfolding remove_torrent
  remove_torrent-spares delete_files t w path d plain apart = ground (
    arith,
    remove_paths-spares path
        (join data_dir (client.name t w) ∷ join data_dir (append (client.name t w) ".part") ∷ [])
        (client.drop t w),
    join-IsPlain data_dir (client.name t w) plain,
    join-IsPlain data_dir (append (client.name t w) ".part") (part-IsPlain (client.name t w) plain),
    d t w,
  )

  -- The torrent that the lookup finds is the client's torrent of the hash.
  find-tracked :
      (hash : String) (w : World C) {t : T}
      → find env client data_dir hash w ≡ ok (some t)
      → (k : Hash) × (env.from_hex_string hash ≡ ok k) × (client.torrent k w ≡ some t)
  unfolding find
  find-tracked hash w found = elim (Result-cases (env.from_hex_string hash)) [
    | inl (k, parsed) ↦ (k, parsed, ground (arith, found, parsed))
    | inr (e, invalid) ↦ absurd (ground (arith, found, invalid))
  ]

  -- A path below neither a torrent's content nor its `.part` file, and the torrent's name is plain.
  abbrev pub IsApart : FilePath → World C → T → Type 0
  IsApart path w t =
      IsPlain (client.name t w)
      × (lies_below path (
            push_last data_dir (client.name t w)
            ∷ push_last data_dir (append (client.name t w) ".part")
            ∷ [])
          ≡ false)

  -- Where dropping a torrent leaves the disk alone: a path that lies below neither the content nor
  -- the `.part` file of the torrent that the client has of the hash, if it has one, whose name is
  -- plain, is on disk after the removal of the hash exactly if it was before, with `deleteFiles` or
  -- without, also where a removal fails half way.
  pub remove_spares :
      (hash : String) (delete_files : Bool) (w : World C) (path : FilePath)
      → DropSparesDisk client
      → ((k : Hash) (t : T)
          → env.from_hex_string hash ≡ ok k
          → client.torrent k w ≡ some t
          → IsApart path w t)
      → is_on path (remove env client data_dir hash delete_files w).1.disk ≡ is_on path w.disk
  unfolding remove
  remove_spares hash delete_files w path d apart =
      let k = remove_torrent env client data_dir delete_files in
      elim (find-cases hash w) [
        | inl (e, h) ↦ rw (with_torrent_invalid hash k w h) refl
        | inr (inl h) ↦ rw (with_torrent_missing hash k w h) refl
        | inr (inr (t, h)) ↦
            let (n, parsed, tracked) = find-tracked hash w h in
            let (plain, away) = apart n t parsed tracked in
            rw (with_torrent_found hash k w h)
              (remove_torrent-spares delete_files t w path d plain away)
      ]

  -- Where the torrent of a hash is called "." (or any name that cleans to the data directory) and
  -- no removal fails, removing it with `deleteFiles` deletes every path below the data directory,
  -- the content of all other torrents included.
  pub remove_dot_wipes :
      (hash : String) (w : World C) (t : T) (path : FilePath)
      → find env client data_dir hash w ≡ ok (some t)
      → (client.name t w == "") ≡ false
      → join data_dir (client.name t w) ≡ data_dir
      → ((p : FilePath) (w' : World C) → client.remove_fault p w' ≡ none)
      → is_below data_dir path ≡ true
      → is_on path (remove env client data_dir hash true w).1.disk ≡ false
  unfolding remove remove_torrent remove_paths remove_all
  remove_dot_wipes hash w t path found named dot up below = ground (
    arith,
    with_torrent_found hash (remove_torrent env client data_dir true) w found,
    up data_dir (client.drop t w),
    up (join data_dir (append (client.name t w) ".part"))
        (record (client.drop t w) { disk = remove_all data_dir (client.drop t w).disk }),
    is_on-keep path (λ q. not (is_below data_dir q)) (client.drop t w).disk,
    is_on-keep path (λ q. not (is_below (join data_dir (append (client.name t w) ".part")) q))
        (remove_all data_dir (client.drop t w).disk),
  )

  find_untracked :
      (hash : String) (w : World C) {h : Hash}
      → env.from_hex_string hash ≡ ok h
      → client.torrent h w ≡ none
      → find env client data_dir hash w ≡ ok none
  unfolding find
  find_untracked hash w parsed gone = rw (parsed, find, gone) refl

  -- For a hash that parses and that the client does not track, `Remove`, `Snapshot` and `Files` all
  -- fail with `ErrNotFound` and change nothing.
  pub untracked_not_found :
      (hash : String) (delete_files : Bool) (w : World C) {h : Hash}
      → env.from_hex_string hash ≡ ok h
      → client.torrent h w ≡ none
      → (remove env client data_dir hash delete_files w ≡ (err err_not_found, w))
        × (snapshot env client data_dir hash w ≡ (err err_not_found, w))
        × (files env client data_dir hash w ≡ (err err_not_found, w))
  unfolding remove snapshot files
  untracked_not_found hash delete_files w parsed gone =
      let missing = find_untracked hash w parsed gone in
      (
        with_torrent_missing hash (remove_torrent env client data_dir delete_files) w missing,
        with_torrent_missing hash (λ t w'. (ok (progress_of env client data_dir hash t w'), w')) w
            missing,
        with_torrent_missing hash (files_of env client data_dir) w missing,
      )
