-- ===== src/Commands/Defs.antt =====
-- The commands of cmd/ after cobra has parsed the arguments and the flags, and `main` of main.go.
use text.Mathlib.Text.{starts_with}
use torrents.Prelude.{ℕ, String, Bool, Option, none, some, List, [], ◌∷◌, if◌then◌else◌}
use torrents.Go.Errors.{Error, wrap}
use torrents.Go.Exec.{Result, ok, err, Exec, or_else, raise}
use torrents.Remote.Defs.{
  Torrent, Codec, Transport, add_magnet, add_file, list, remove, pause, resume,
}
use torrents.Server.{Config, load_config, default_config}

-- What the client's commands use beside the client: `url.Parse`, the requests to an address,
-- `os.Open` with what reading the file then gives, and the writing of the output.
pub record Terminal (S : Type 0) : Type 0 where
  pub parse : String → Option Error
  pub connect : String → Transport S
  pub open_file : String → Result (Result String)
  pub write_torrent : Torrent → Option Error
  pub write_torrents : List Torrent → Option Error

-- The commands that call the server, with the flag `address` first.
pub data Command : Type 0 where
  add_command : String → String → String → String → Command
  list_command : String → Command
  delete_command : String → Bool → String → Command
  pause_command resume_command : String → String → Command

-- What a command has written.
pub data Output : Type 0 where
  silent : Output
  one_torrent : Torrent → Output
  all_torrents : List Torrent → Output

-- `enc.Encode`
abbrev pub encoded : Option Error → Output → Result Output
encoded none out = ok out
encoded (some e) out = err e

-- A call on the client, the command's words for its error, and what is written of its value.
abbrev pub answered : {A S : Type 0} → Exec S A → String → (A → Result Output) → Exec S Output
answered m label f = or_else m (λ e. raise (wrap label e)) (λ a s. (f a, s))

-- `client.New` on what parsing the address gives, then the call on the client.
abbrev pub on_client :
    {S : Type 0} → Option Error → Transport S → (Transport S → Exec S Output) → Exec S Output
on_client (some e) send k = raise (wrap "failed to parse address" e)
on_client none send k = k send

module _ {S : Type 0} (terminal : Terminal S) (codec : Codec) where
  abbrev pub with_client : String → (Transport S → Exec S Output) → Exec S Output
  with_client address k = on_client (terminal.parse address) (terminal.connect address) k

  abbrev pub write_one : Torrent → Result Output
  write_one t = encoded (terminal.write_torrent t) (one_torrent t)

  abbrev pub write_all : List Torrent → Result Output
  write_all ts = encoded (terminal.write_torrents ts) (all_torrents ts)

  -- `add` with the label, the directory and the argument, on the client.
  abbrev pub add_call : String → String → String → Transport S → Exec S Output
  add_call label target_dir arg send =
      if starts_with arg "magnet:?"
      then answered (add_magnet send codec arg label target_dir) "failed to add torrent" write_one
      else elim (terminal.open_file arg) [
        | err e ↦ raise (wrap "failed to open torrent file" e)
        | ok file ↦
            answered (add_file send codec file label target_dir) "failed to add torrent" write_one
      ]

  unfoldable pub run_add : String → String → String → String → Exec S Output
  run_add address label target_dir arg = with_client address (add_call label target_dir arg)

  unfoldable pub run_list : String → Exec S Output
  run_list address =
      with_client address (λ send. answered (list send codec) "failed to list torrents" write_all)

  unfoldable pub run_delete : String → Bool → String → Exec S Output
  run_delete address delete_files hash = with_client address (λ send.
      answered (remove send codec hash delete_files) "failed to delete torrent" (λ _. ok silent))

  unfoldable pub run_pause : String → String → Exec S Output
  run_pause address hash =
      with_client address
        (λ send. answered (pause send codec hash) "failed to pause torrent" (λ _. ok silent))

  unfoldable pub run_resume : String → String → Exec S Output
  run_resume address hash =
      with_client address
        (λ send. answered (resume send codec hash) "failed to resume torrent" (λ _. ok silent))

  -- `cmd.ExecuteContext`
  abbrev pub execute : Command → Exec S Output
  execute (add_command address label target_dir arg) = run_add address label target_dir arg
  execute (list_command address) = run_list address
  execute (delete_command address delete_files hash) = run_delete address delete_files hash
  execute (pause_command address hash) = run_pause address hash
  execute (resume_command address hash) = run_resume address hash

-- The exit code of `main`.
abbrev pub exit_code : {A : Type 0} → Result A → ℕ
exit_code (ok a) = 0
exit_code (err e) = 1

-- The `serve` command on its arguments, of which cobra lets through one at most; `home` is
-- `os.UserHomeDir`, `decode_file` is `toml.DecodeFile` and `run` the server on a configuration.
unfoldable pub run_serve :
    {P : Type 0}
    → (List String → String)
    → Result String
    → (String → Result Config)
    → (Config → Exec P (Unit {0}))
    → List String
    → Exec P (Unit {0})
run_serve join home decode_file run [] = run (default_config join home)
run_serve join home decode_file run (path ∷ rest) = elim (load_config decode_file path) [
  | err e ↦ raise (wrap "failed to load configuration file" e)
  | ok config ↦ run config
]
