-- ===== src/Commands/Whole.antt =====
-- The commands on the whole program: the server's handlers, the service, the engine and the tables.
use mathlib.Core.Option
use torrents.Prelude.{
  String, true, ◌≡◌, refl, Option, none, some, arith, ◌==◌, inl, inr, if◌then◌else◌, Option-cases,
}
use torrents.Go.Errors.{Error}
use torrents.Go.Exec.{ok}
use torrents.Database.Defs.{Env, Hash}
use torrents.Database.Torrents.Order.{IsAlwaysUp}
use torrents.Engine.Path.{FilePath}
use torrents.Engine.Path.Plain.{IsPlain}
use torrents.Engine.Defs.{World, Client}
use torrents.Api.Defs.{Response}
use torrents.Api.Deletion.{torrent_service}
use torrents.Service.Frame.{SparesTable, paused_of}
use torrents.Service.Pausing.{pause_lem}
use torrents.Remote.Defs.{Codec, Call}
use torrents.Remote.Server.{serve}
use torrents.Remote.Carries.{IsFaithful}
use torrents.Commands.Defs.{Terminal, pause_command, execute, exit_code}
use torrents.Commands.Answers.{execute-answer}

module _ {C T M : Type 0} (env : Env) (client : Client (World C) T M) (data_dir : FilePath)
    (required : String → Option Error) (unrouted : Call → Response) (codec : Codec)
    (terminal : Terminal (World C)) (up : IsAlwaysUp env) (spares : SparesTable client)
    (faithful : IsFaithful codec) where
  -- With no database call failing, a client that spares the table `torrent`, a decoder that reads
  -- back what the handlers encode, an address that parses and leads to the server, and a hash that
  -- parses and is one path element: `torrents pause` exits with 0 exactly when the torrent is
  -- managed, and with 1 otherwise; afterwards its flag is set, and the flags of all others and the set
  -- of managed torrents are as they were.
  pub exit_code-execute :
      (address hash : String) (w : World C) (j : String) {k : Hash}
      → terminal.parse address ≡ none
      → terminal.connect address ≡ serve (torrent_service env client data_dir) required unrouted
      → IsPlain hash
      → env.from_hex_string hash ≡ ok k
      → (let (r, w') = execute terminal codec (pause_command address hash) w in
          (exit_code r ≡ elim (paused_of hash w) [ none ↦ 1 | some _ ↦ 0 ])
          × (paused_of j w'
              ≡ (if j == hash then Option.map (λ _. true) (paused_of j w) else paused_of j w)))
  exit_code-execute address hash w j parsed there plain hex =
      let (answered, flags) = pause_lem env client data_dir up spares hash w j hex in
      rw
        (execute-answer (torrent_service env client data_dir) required unrouted codec terminal
          faithful address parsed there (pause_command address hash) w (refl, plain))
        (elim (Option-cases (paused_of hash w)) [
          | inl gone ↦ ground (arith, answered, flags, gone)
          | inr (b, found) ↦ ground (arith, answered, flags, found)
        ])
