-- ===== src/Server/Replay.antt =====
-- The loop of src/daemon/main.c over many messages as the requests of a `Server`, one after the other.
use mathlib.Core.List.{map}
use nav.Base.{
  drop, ℕ, ◌≡◌, refl, ap, ◌∙◌, ◌≤◌, true, List, [], ◌∷◌, ◌++◌, append_assoc, append-nil, Bytes,
  length, pos, sym, arith,
}
use nav.Run.Ensures.{Returns, Returns-mono}
use nav.Utils.Words.{has_blank, has_blank-suffix}
use nav.World.{World, Os, Datagram}
use nav.Commands.Replies.{socket_path}
use nav.Commands.Invariant.{IsWellFormed}
use nav.Loop.{Round}
use nav.Loop.Message.{sentence_long}
use nav.Loop.Buffer.{rounds, loop, left}
use nav.Loop.Buffer.Clear.{
  IsClear, tail_of, longest, longest_short, clear_tail, drop-IsClear, left-IsClear, zeros-IsClear,
}
use nav.Server.{Server, Request, bind}
use nav.Utils.Terminated.{nul-IsTerminated}
use nav.Server.Arguments.{Suits}
use nav.Server.View.{view}
use nav.Server.Refines.{replies}
use nav.Server.Rounds.{Turn, message_of, serve_turn, CanServe, Follows, round-Follows}

abbrev pub received : List Turn → List (Os × Bytes)
received ts = map (λ t. (t.os, message_of t)) ts

abbrev pub replay : List Turn → Server → Server
replay [] a = a
replay (t ∷ ts) a = replay ts (serve_turn t a).0

-- the datagrams that the specification sends
abbrev pub answers : Bytes → List Turn → Server → List Datagram
answers cache_dir [] a = []
answers cache_dir (t ∷ ts) a =
    replies (socket_path cache_dir (pos t.pid)) (serve_turn t a).1
    ++ answers cache_dir ts (serve_turn t a).0

-- each request can be served in the state that the specification then has
abbrev pub CanReplay : List Turn → Server → Type 0
CanReplay [] a = Unit
CanReplay (t ∷ ts) a = CanServe t a × CanReplay ts (serve_turn t a).0

-- the message of an `add`, of `n` bytes, is not shorter than the longest one before it, of `k` bytes
abbrev pub AddFits : Request → ℕ → ℕ → Type 0
AddFits (bind tag path) k n = k ≤ n
AddFits _ k n = Unit

-- the messages have at most 99 bytes, and that of an `add` is not shorter than those before it
abbrev pub SizesFit : ℕ → List Turn → Type 0
SizesFit k [] = Unit
SizesFit k (t ∷ ts) =
    let n = length (message_of t) in (n ≤ 99) × AddFits t.request k n × SizesFit (longest k n) ts

-- what the loop makes of the requests
pub record Replays (w : World) (ts : List Turn) (r : Round) : Type 0 where
  pub goes_on : r.0 ≡ true
  pub held : view r.1 ≡ replay ts (view w)
  pub sent : r.1.sent ≡ w.sent ++ answers w.cache_dir ts (view w)
  pub well_formed : IsWellFormed r.1

later-Replays :
    (w w' : World) (t : Turn) (ts : List Turn) (r : Round)
    → Follows w t.pid (serve_turn t (view w)) w'
    → Replays w' ts r
    → Replays w (t ∷ ts) r
later-Replays w w' t ts r f h = record {
  goes_on = h.goes_on;
  held = h.held ∙ ap (replay ts) f.gives.0;
  sent = h.sent ∙ rw (f.gives.0, f.gives.1, f.same_dir) (append_assoc w.sent _ _);
  well_formed = h.well_formed;
}

module _ (behind : Bytes) (blank : has_blank behind ≡ true) where
  blank_tail : (k : ℕ) → has_blank (tail_of behind k) ≡ true
  blank_tail k = has_blank-suffix _ behind blank

  tail-Suits :
      (r : Request) (old : Bytes) (k n : ℕ)
      → k ≤ 99
      → IsClear behind k old
      → n ≤ 99
      → AddFits r k n
      → Suits r (drop n old)
  tail-Suits (bind tag path) old k n small clear short fits =
      (tail_of behind n, blank_tail n, drop-IsClear behind old k small clear n fits short)
  tail-Suits _ old k n small clear short fits =
      let (s, long, same) = clear_tail behind old k small clear n short in
      rw same (nul-IsTerminated s (tail_of behind (longest k n)) (blank_tail (longest k n)))

  rounds-Replays :
      (ts : List Turn) (w : World) (k : ℕ) (buf : Bytes)
      → IsWellFormed w
      → k ≤ 99
      → IsClear behind k buf
      → CanReplay ts (view w)
      → SizesFit k ts
      → Returns (Replays w ts) (rounds (received ts) w buf)
  unfolding rounds
  rounds-Replays [] w k buf v small clear can sizes = record {
    goes_on = refl;
    held = refl;
    sent = sym (append-nil w.sent);
    well_formed = v;
  }
  rounds-Replays (t ∷ ts) w k buf v small clear can sizes =
      let message = message_of t in
      let n = length message in
      let (w', run, follows) =
        round-Follows w v t can.0 buf (drop n buf) (omega (arith, sizes.0)) refl
          (tail-Suits t.request buf k n small clear sizes.0 sizes.1) in
      let clear' = left-IsClear behind buf k small clear w message (sentence_long _ _) sizes.0 in
      rw run (
        Returns-mono (Replays w' ts) (Replays w (t ∷ ts))
          (rounds (received ts) w' (left w buf message)) (λ r. later-Replays w w' t ts r follows)
          (rounds-Replays ts w' (longest k n) (left w buf message) follows.well_formed
            (longest_short k n small sizes.0) clear' (rw follows.gives.0 can.1) sizes.2))

  -- From a well-formed state the loop answers any requests, of any shells and in any order, as the
  -- specification does, one after the other: it returns and goes on, the daemon then holds what the
  -- specification holds, in a well-formed state, and it has sent exactly the replies of the specification,
  -- in order, each to the socket of its shell. Each request is in a message of at most 99 bytes, that of an
  -- `add` in one that is not shorter than those before it, with a process id below 2^31 and words without
  -- NUL, space and newline; whenever one comes, memory can be had and the reply fits the handler's buffer; and a space or newline is
  -- somewhere behind the receive buffer.
  pub loop-Replays :
      (ts : List Turn) (w : World)
      → IsWellFormed w
      → CanReplay ts (view w)
      → SizesFit 0 ts
      → Returns (Replays w ts) (loop behind (received ts) w)
  unfolding loop
  loop-Replays ts w v can sizes =
      rounds-Replays ts w 0 _ v (omega arith) (zeros-IsClear behind) can sizes
