-- ===== src/Service/Program/Pool.antt =====
-- The requests that are under way together: the scheduler picks one of them for its next call, and
-- between the calls the goroutines of the torrent client change the state.
use torrents.Prelude.{ℕ, zero, suc, List, [], ◌∷◌, map}
use torrents.Go.Errors.{plain}
use torrents.Go.Exec.{err}
use torrents.Service.Defs.{TorrentEngine, TorrentRepository, PieceRepository}
use torrents.Service.Always.{Call}
use torrents.Service.Program.{Program, reply, ask, perform}
use torrents.Service.Program.Requests.{Reply, request}

abbrev pub Pool : Type 0
Pool = List (Program Reply)

pub data Turn (S : Type 0) : Type 0 where
  request_turn : ℕ → Turn S
  background : (S → S) → Turn S

-- The n-th request, one that has been answered where there is none.
abbrev pub nth_request : ℕ → Pool → Program Reply
nth_request n [] = reply (err (plain "no request"))
nth_request zero (p ∷ ps) = p
nth_request (suc n) (p ∷ ps) = nth_request n ps

-- The requests as they arrive.
abbrev pub begin : List Call → Pool
begin calls = map request calls

module _ {S : Type 0} (engine : TorrentEngine S) (torrents : TorrentRepository S)
    (pieces : PieceRepository S) where
  -- The next call of a request.
  abbrev pub proceed : Program Reply → S → Program Reply × S
  proceed (reply r) s = (reply r, s)
  proceed (ask op k) s = let (a, s') = perform engine torrents pieces op s in (k a, s')

  abbrev pub proceed_nth : ℕ → Pool → S → Pool × S
  proceed_nth n [] s = ([], s)
  proceed_nth zero (p ∷ ps) s = let (p', s') = proceed p s in (p' ∷ ps, s')
  proceed_nth (suc n) (p ∷ ps) s = let (ps', s') = proceed_nth n ps s in (p ∷ ps', s')

  abbrev pub take_turn : Turn S → Pool × S → Pool × S
  take_turn (request_turn n) (ps, s) = proceed_nth n ps s
  take_turn (background f) (ps, s) = (ps, f s)

  abbrev pub take_turns : List (Turn S) → Pool × S → Pool × S
  take_turns [] c = c
  take_turns (t ∷ ts) c = take_turns ts (take_turn t c)

  -- The configuration after k turns of an endless schedule.
  abbrev pub at : (ℕ → Turn S) → Pool × S → ℕ → Pool × S
  at schedule c zero = c
  at schedule c (suc k) = take_turn (schedule k) (at schedule c k)

  -- The calls of the requests in some order, with none of the torrent client between them.
  pub data Runs : Pool × S → Pool × S → Type 0 where
    stop : {c : Pool × S} → Runs c c
    turn : (n : ℕ) {ps : Pool} {s : S} {d : Pool × S} → Runs (proceed_nth n ps s) d → Runs (ps, s) d
