-- ===== src/Loop/Buffer.antt =====
-- The receive buffer of the loop in src/daemon/main.c over its rounds: `recv` writes a datagram over its
-- front, and each call of `strtok_r`, in the loop and in the handlers, a NUL on the delimiter that it meets.
pub mod Keeps
pub mod Clear
pub mod Lines
pub mod Safe
pub mod Reached
use nav.Base.{
  ℕ, zero, suc, Bool, true, false, Option, none, some, List, [], ◌∷◌, ◌++◌, Bytes, ℤ, replicate,
}
use nav.Run.{Run, ok, ◌>>=◌}
use nav.CString.{Token, strtok_r, cut_then}
use nav.Shell.{Shell}
use nav.World.{World, Os}
use nav.Commands.Replies.{get_shell}
use nav.Commands.Tags.{space}
use nav.Commands.Dispatch.{CommandId, add, delete, get, lookup_command}
use nav.Loop.{Round, recv, buf_size, strtol, to_int, round}

-- the calls of a handler on its arguments; one that finds no token writes nothing, nor do those behind it
unfoldable pub handler_calls : Option Shell → Option CommandId → ℕ
handler_calls (some s) (some add) = 3
handler_calls (some s) (some delete) = 1
handler_calls (some s) (some get) = 1
handler_calls _ _ = 0

unfoldable pub cut_args : ℕ → Bytes → Bytes
cut_args zero m = m
cut_args (suc n) m = cut_then space (cut_args n) m

unfoldable pub command_calls : World → ℤ → Run (Option Token) → ℕ
unfolding handler_calls
command_calls w pid (ok (some t)) = handler_calls (get_shell w pid) (lookup_command t.text)
command_calls w pid _ = 0

-- from the command on; the call for the arguments has no delimiters and writes nothing
unfoldable pub cut_command : World → ℤ → Bytes → Bytes
unfolding command_calls
cut_command w pid m = cut_then space (cut_args (command_calls w pid (strtok_r (some m) space))) m

-- behind a process id that is out of range the loop ends
unfoldable pub cut_pid : World → Option ℤ → Bytes → Bytes
unfolding cut_command
cut_pid w none m = m
cut_pid w (some n) m = cut_command w (to_int n) m

unfoldable pub cut_line : World → Run (Option Token) → Bytes → Bytes
unfolding cut_pid
cut_line w (ok (some t)) m = cut_then space (cut_pid w (strtol t.text)) m
cut_line w _ m = m

-- the buffer behind a round, with what lies behind it
unfoldable pub left : World → Bytes → Bytes → Bytes
unfolding cut_line
left w old [] = old
left w old (c ∷ datagram) =
    let buf = recv (c ∷ datagram) old in cut_line w (strtok_r (some buf) space) buf

-- The rounds for some datagrams, each with the answers of the system to it. The loop ends early at a
-- process id out of range.
unfoldable pub rounds : List (Os × Bytes) → World → Bytes → Run Round
unfolding left
rounds [] w buf = ok (true, w)
rounds ((os, datagram) ∷ rest) w buf = do
  r ← round os w buf datagram
  elim r.0 [ true ↦ rounds rest r.1 (left w buf datagram) | false ↦ ok r ]

-- the loop starts with a buffer of zeros; `behind` lies behind it
unfoldable pub loop : Bytes → List (Os × Bytes) → World → Run Round
unfolding rounds
loop behind datagrams w = rounds datagrams w (replicate buf_size 0 ++ behind)
