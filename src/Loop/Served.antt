-- ===== src/Loop/Served.antt =====
-- A message of the client in the loop of src/daemon/main.c: the round returns, and the loop goes on.
use nav.Base.{
  ℕ, ◌^◌, ◌≡◌, refl, ◌≤◌, ◌<◌, true, Option, none, List, [], ◌∷◌, ◌++◌, append-nil, All, Bytes,
  drop, length, pos, arith,
}
use nav.Run.{Run}
use nav.Run.Ensures.{Returns, Returns-bind}
use nav.CString.{print_nat}
use nav.Utils.Words.{has_blank, has_blank-suffix}
use nav.Utils.Terminated.{IsTerminated, terminated}
use nav.World.{World, Os}
use nav.Commands.Invariant.{IsWellFormed}
use nav.Commands.Safety.{Fits, SafeArgs}
use nav.Commands.Safety.Total.{dispatch-Returns}
use nav.Commands.Dispatch.{CommandId, lookup_command, dispatch_command}
use nav.Commands.Tags.Parse.{IsName, spell}
use nav.Loop.{Round, round}
use nav.Loop.Message.{sentence, args_of, then_go_on, round-dispatch}

-- the loop goes on, in a well-formed state
abbrev pub GoesOn : Round → Type 0
GoesOn r = (r.0 ≡ true) × IsWellFormed r.1

then-GoesOn : (r : Run World) → Returns IsWellFormed r → Returns GoesOn (then_go_on r)
then-GoesOn r h = Returns-bind IsWellFormed GoesOn r _ h λ w' v. (refl, v)

-- `add`, `delete` and `get` need arguments
abbrev pub HasArgs : List Bytes → Option CommandId → Type 0
HasArgs [] c = SafeArgs none c
HasArgs (word ∷ words) c = Unit

through-IsTerminated : (s m : Bytes) → IsTerminated m → IsTerminated (s ++ b' ' ∷ m)
unfolding terminated
through-IsTerminated [] m h = rw h refl
through-IsTerminated (c ∷ s) m h =
    let later = has_blank-suffix s (b' ' ∷ m) (unfold has_blank in refl) in
    ground (arith, later, through-IsTerminated s m h)

spell-IsTerminated :
    (words : List Bytes) (m : Bytes) → has_blank m ≡ true → IsTerminated (spell words m)
unfolding spell
spell-IsTerminated [] m h = unfold terminated in h
spell-IsTerminated (w ∷ words) m h =
    through-IsTerminated w (spell words m) (spell-IsTerminated words m h)

args_of-SafeArgs :
    (words : List Bytes) (m : Bytes) (c : Option CommandId)
    → has_blank m ≡ true
    → HasArgs words c
    → SafeArgs (args_of words m) c
args_of-SafeArgs [] m c blank h = h
args_of-SafeArgs (w ∷ words) m c blank h = spell-IsTerminated (w ∷ words) m blank

-- In a well-formed state whose texts fit the buffers, the daemon serves every message of the client of at
-- most 100 bytes, whose words have no NUL, space or newline, with a process id below 2^31: the round
-- returns, with no fault, the state is well-formed, and the loop goes on, if a NUL is behind the message in the buffer and a space or newline somewhere behind that, and if `add`, `delete` and `get`
-- have arguments.
pub message-GoesOn :
    (os : Os) (w : World) (pid : ℕ) (cmd_str : Bytes) (words : List Bytes) (old m : Bytes)
    → IsWellFormed w
    → Fits w
    → pid < 2 ^ 31
    → IsName cmd_str
    → All IsName words
    → length (sentence (print_nat pid ∷ cmd_str ∷ words)) ≤ 100
    → drop (length (sentence (print_nat pid ∷ cmd_str ∷ words))) old ≡ 0 ∷ m
    → has_blank m ≡ true
    → HasArgs words (lookup_command cmd_str)
    → Returns GoesOn (round os w old (sentence (print_nat pid ∷ cmd_str ∷ words)))
unfolding spell
message-GoesOn os w pid cmd_str words old m v fits small hc hw short behind blank safe =
    rw
      (round-dispatch os w pid cmd_str words [] old m small hc hw tt short behind, append-nil words)
      (then-GoesOn (dispatch_command os w cmd_str (pos pid) (args_of words m)) (
        dispatch-Returns os w v fits (pos pid) cmd_str (args_of words m)
          (args_of-SafeArgs words m (lookup_command cmd_str) blank safe)))
