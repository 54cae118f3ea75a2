-- ===== src/Service/Program/Requests.antt =====
-- The requests that the handlers of the API and of the pages make of the service, as programs with
-- one type of reply.
use torrents.Prelude.{◌≡◌, refl, List}
use torrents.Go.Exec.{ok, Exec, or_else, pure, raise}
use torrents.Service.Defs as Service
use torrents.Service.Defs.{
  TorrentEngine, TorrentRepository, PieceRepository, Torrent, File, AddOptions,
}
use torrents.Service.Always.{
  Call, add_magnet_call, add_file_call, get_call, files_call, pause_call, resume_call, list_call,
  remove_call,
}
use torrents.Service.Program.{Program, reply, attempt, run_alone}
use torrents.Service.Program.Methods as Methods
use torrents.Service.Program.Methods.{failing}
use torrents.Service.Program.Agreement.{Agrees, attempt-Agrees, get-Agrees}
use torrents.Service.Program.Equals.{
  add_magnet-Agrees, add_file-Agrees, files-Agrees, list-Agrees, remove-Agrees, pause-Agrees,
  resume-Agrees,
}

pub data Reply : Type 0 where
  torrent_reply : Torrent → Reply
  torrents_reply : List Torrent → Reply
  files_reply : List File → Reply
  done_reply : Reply

abbrev pub replying : {A : Type 0} → Program A → (A → Reply) → Program Reply
replying p f = attempt p failing (λ a. reply (ok (f a)))

abbrev pub request : Call → Program Reply
request (add_magnet_call uri opts) = replying (Methods.add_magnet uri opts) torrent_reply
request (add_file_call file opts) = replying (Methods.add_file file opts) torrent_reply
request (get_call h) = replying (Methods.get h) torrent_reply
request (files_call h) = replying (Methods.files h) files_reply
request (pause_call h) = replying (Methods.pause h) (λ _. done_reply)
request (resume_call h) = replying (Methods.resume h) (λ _. done_reply)
request list_call = replying Methods.list torrents_reply
request (remove_call h d) = replying (Methods.remove h d) (λ _. done_reply)

module _ {S : Type 0} (engine : TorrentEngine S) (torrents : TorrentRepository S)
    (pieces : PieceRepository S) where
  abbrev pub answering : {A : Type 0} → Exec S A → (A → Reply) → Exec S Reply
  answering m f = or_else m raise (λ a. pure (f a))

  -- The method's answer to a call.
  abbrev pub answer : Call → Exec S Reply
  answer (add_magnet_call uri opts) =
      answering (Service.add_magnet engine torrents pieces uri opts) torrent_reply
  answer (add_file_call file opts) =
      answering (Service.add_file engine torrents pieces file opts) torrent_reply
  answer (get_call h) = answering (Service.get engine torrents pieces h) torrent_reply
  answer (files_call h) = answering (Service.files engine torrents pieces h) files_reply
  answer (pause_call h) = answering (Service.pause engine torrents pieces h) (λ _. done_reply)
  answer (resume_call h) = answering (Service.resume engine torrents pieces h) (λ _. done_reply)
  answer list_call = answering (Service.list engine torrents pieces) torrents_reply
  answer (remove_call h d) = answering (Service.remove engine torrents pieces h d) (λ _. done_reply)

  replying-Agrees :
      {A : Type 0} (p : Program A) (m : Exec S A) (f : A → Reply)
      → Agrees engine torrents pieces p m
      → Agrees engine torrents pieces (replying p f) (answering m f)
  replying-Agrees p m f h =
      attempt-Agrees engine torrents pieces p m failing raise (λ a. reply (ok (f a)))
        (λ a. pure (f a)) h (λ e s. refl) (λ a s. refl)

  -- A request that runs alone, call by call, has the result of the method, and leaves the state as
  -- the method does.
  pub run_alone-request :
      (c : Call) (s : S) → run_alone engine torrents pieces (request c) s ≡ answer c s
  run_alone-request (add_magnet_call uri opts) =
      replying-Agrees (Methods.add_magnet uri opts) _ torrent_reply
        (add_magnet-Agrees engine torrents pieces uri opts)
  run_alone-request (add_file_call file opts) =
      replying-Agrees (Methods.add_file file opts) _ torrent_reply
        (add_file-Agrees engine torrents pieces file opts)
  run_alone-request (get_call h) =
      replying-Agrees (Methods.get h) _ torrent_reply (get-Agrees engine torrents pieces h)
  run_alone-request (files_call h) =
      replying-Agrees (Methods.files h) _ files_reply (files-Agrees engine torrents pieces h)
  run_alone-request (pause_call h) =
      replying-Agrees (Methods.pause h) _ (λ _. done_reply) (pause-Agrees engine torrents pieces h)
  run_alone-request (resume_call h) =
      replying-Agrees (Methods.resume h) _ (λ _. done_reply)
        (resume-Agrees engine torrents pieces h)
  run_alone-request list_call =
      replying-Agrees Methods.list _ torrents_reply (list-Agrees engine torrents pieces)
  run_alone-request (remove_call h d) =
      replying-Agrees (Methods.remove h d) _ (λ _. done_reply)
        (remove-Agrees engine torrents pieces h d)
