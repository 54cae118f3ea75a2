-- ===== src/Commands/Answers.antt =====
-- What the commands write and how they end, by what the service answers.
use text.Mathlib.Text.{starts_with}
use torrents.Prelude.{
  String, true, ◌≡◌, refl, ap, ◌∙◌, Option, none, inl, inr, if◌then◌else◌, Bool-cases,
}
use torrents.Go.Errors.{Error, wrap}
use torrents.Go.Exec.{Result, ok, err, Exec, raise}
use torrents.Engine.Path.Plain.{IsPlain}
use torrents.Api.Defs.{Response, TorrentService}
use torrents.Service.Defs.{AddOptions}
use torrents.Remote.Defs.{Codec, Call, Transport, add_magnet, add_file, list, remove, pause, resume}
use torrents.Remote.Server.{serve}
use torrents.Remote.Carries.{IsFaithful, carried, client_carries, added, add_magnet_carries}
use torrents.Remote.Uploads.{uploaded, add_file_carries, listing, list_carries}
use torrents.Commands.Defs.{
  Terminal, Output, silent, Command, add_command, list_command, delete_command, pause_command,
  resume_command, execute, answered, on_client, with_client, add_call, write_one, write_all,
  run_add, run_list, run_delete, run_pause, run_resume,
}

-- An answer as a command ends: the output, or the error under the command's own words.
abbrev pub closed : {A S : Type 0} → String → (A → Result Output) → Result A × S → Result Output × S
closed label f (ok a, s) = (f a, s)
closed label f (err e, s) = (err (wrap label e), s)

-- A command for an address, with a hash that is one path element, or an argument to add that passes
-- the validation of a magnet.
abbrev pub Addressed : (String → Option Error) → String → Command → Type 0
Addressed required address (add_command a label target_dir arg) =
    (a ≡ address) × (required arg ≡ none)
Addressed required address (list_command a) = a ≡ address
Addressed required address (delete_command a delete_files hash) = (a ≡ address) × IsPlain hash
Addressed required address (pause_command a hash) = (a ≡ address) × IsPlain hash
Addressed required address (resume_command a hash) = (a ≡ address) × IsPlain hash

answered_lem :
    {A S : Type 0} (m : Exec S A) (label : String) (f : A → Result Output) (s : S) (r : Result A)
    (s' : S)
    → m s ≡ (r, s')
    → answered m label f s ≡ closed label f (r, s')
answered_lem m label f s (ok a) s' e = rw e refl
answered_lem m label f s (err x) s' e = rw e refl

module _ {S : Type 0} (torrents : TorrentService S) (required : String → Option Error)
    (unrouted : Call → Response) (codec : Codec) (terminal : Terminal S) where
  -- The service's answer to a command, as the command ends.
  abbrev pub answer : Command → S → Result Output × S
  answer (add_command a label target_dir arg) s =
      let options : AddOptions = record { label = label; target_dir = target_dir } in
      if starts_with arg "magnet:?"
      then (let (r, s') = torrents.add_magnet arg options s in
          closed "failed to add torrent" (write_one terminal codec)
            (added torrents required unrouted codec r, s'))
      else elim (terminal.open_file arg) [
        | err e ↦ (err (wrap "failed to open torrent file" e), s)
        | ok (err e) ↦
            (err (wrap "failed to add torrent" (wrap "failed to read torrent file" e)), s)
        | ok (ok file) ↦
            let (r, s') = torrents.add_file file options s in
            closed "failed to add torrent" (write_one terminal codec) (uploaded r, s')
      ]
  answer (list_command a) s =
      let (r, s') = torrents.list s in
      closed "failed to list torrents" (write_all terminal codec) (listing r, s')
  answer (delete_command a delete_files hash) s =
      closed "failed to delete torrent" (λ _. ok silent)
        (carried hash "failed to remove torrent" (λ t. t) (torrents.remove hash delete_files s))
  answer (pause_command a hash) s =
      closed "failed to pause torrent" (λ _. ok silent)
        (carried hash "failed to pause torrent" (λ t. t) (torrents.pause hash s))
  answer (resume_command a hash) s =
      closed "failed to resume torrent" (λ _. ok silent)
        (carried hash "failed to resume torrent" (λ t. t) (torrents.resume hash s))

module _ {S : Type 0} (torrents : TorrentService S) (required : String → Option Error)
    (unrouted : Call → Response) (codec : Codec) (terminal : Terminal S)
    (faithful : IsFaithful codec) (address : String) (parsed : terminal.parse address ≡ none)
    (there : terminal.connect address ≡ serve torrents required unrouted) where
  abbrev service_answer : Command → S → Result Output × S
  service_answer = answer torrents required unrouted codec terminal

  abbrev send : Transport S
  send = serve torrents required unrouted

  with_client_lem :
      (k : Transport S → Exec S Output) (s : S) → with_client terminal codec address k s ≡ k send s
  with_client_lem k s =
      ap (λ o. on_client o (terminal.connect address) k s) parsed ∙ ap (λ t. k t s) there

  calling :
      {A : Type 0} (m : Transport S → Exec S A) (label : String) (f : A → Result Output) (s : S)
      {r : Result A × S}
      → m send s ≡ r
      → with_client terminal codec address (λ t. answered (m t) label f) s ≡ closed label f r
  calling m label f s {r = r} e =
      with_client_lem (λ t. answered (m t) label f) s ∙ answered_lem (m send) label f s r.0 r.1 e

  -- `add` on what opening the file gives.
  opened_lem :
      (label target_dir : String) (opened : Result (Result String)) (s : S)
      → (elim opened as (λ _. Exec S Output) [
        | err e ↦ raise (wrap "failed to open torrent file" e)
        | ok file ↦
            answered
              (add_file send codec file label target_dir)
              "failed to add torrent"
              (write_one terminal codec)
      ])
          s
        ≡ elim opened [
          | err e ↦ (err (wrap "failed to open torrent file" e), s)
          | ok (err e) ↦
              (err (wrap "failed to add torrent" (wrap "failed to read torrent file" e)), s)
          | ok (ok file) ↦
              let (r, s') =
                torrents.add_file file (record { label = label; target_dir = target_dir }) s in
              closed "failed to add torrent" (write_one terminal codec) (uploaded r, s')
        ]
  unfolding add_file
  opened_lem label target_dir (err e) s = refl
  opened_lem label target_dir (ok (err e)) s = refl
  opened_lem label target_dir (ok (ok file)) s =
      let added_file =
        torrents.add_file file (record { label = label; target_dir = target_dir }) s in
      answered_lem (add_file send codec (ok file) label target_dir) "failed to add torrent"
        (write_one terminal codec) s (uploaded added_file.0) added_file.1
        (add_file_carries torrents required unrouted codec file label target_dir s faithful)

  add_answer :
      (label target_dir arg : String) (s : S)
      → required arg ≡ none
      → run_add terminal codec address label target_dir arg s
        ≡ service_answer (add_command address label target_dir arg) s
  unfolding run_add
  add_answer label target_dir arg s fine =
      let options : AddOptions = record { label = label; target_dir = target_dir } in
      let added_magnet = torrents.add_magnet arg options s in
      let write = write_one terminal codec in
      with_client_lem (add_call terminal codec label target_dir arg) s
      ∙ elim (Bool-cases (starts_with arg "magnet:?")) [
        | inl e ↦ rw e (
            answered_lem (add_magnet send codec arg label target_dir) "failed to add torrent" write
              s (added torrents required unrouted codec added_magnet.0) added_magnet.1
              (add_magnet_carries torrents required unrouted codec arg label target_dir s fine
                faithful))
        | inr e ↦ rw e (opened_lem label target_dir (terminal.open_file arg) s)
      ]

  -- On an address that parses and leads to the server's handlers, with a decoder that reads back what
  -- they encode, a hash that is one path element and an argument of `add` that passes the validation
  -- of a magnet: each command comes to the method of the service it is named for, with its arguments
  -- and once, and ends with the service's answer: what is written of the value, or the error
  -- response under the command's words. `add` takes an argument that starts with `magnet:?` to be a
  -- magnet URI and any other to be a file, and a file that cannot be opened or read reaches no
  -- service.
  pub execute-answer :
      (c : Command) (s : S)
      → Addressed required address c
      → execute terminal codec c s ≡ answer torrents required unrouted codec terminal c s
  unfolding run_list run_delete run_pause run_resume
  execute-answer (add_command a label target_dir arg) s (same, fine) =
      rw same (add_answer label target_dir arg s fine)
  execute-answer (list_command a) s same = rw same (
      calling (λ t. list t codec) "failed to list torrents" (write_all terminal codec) s
        (list_carries torrents required unrouted codec s faithful))
  execute-answer (delete_command a delete_files hash) s (same, plain) = rw same (
      calling (λ t. remove t codec hash delete_files) "failed to delete torrent" (λ _. ok silent) s
        (client_carries torrents required unrouted codec hash delete_files s plain faithful).1)
  execute-answer (pause_command a hash) s (same, plain) = rw same (
      calling (λ t. pause t codec hash) "failed to pause torrent" (λ _. ok silent) s
        (client_carries torrents required unrouted codec hash true s plain faithful).2)
  execute-answer (resume_command a hash) s (same, plain) = rw same (
      calling (λ t. resume t codec hash) "failed to resume torrent" (λ _. ok silent) s
        (client_carries torrents required unrouted codec hash true s plain faithful).3)
