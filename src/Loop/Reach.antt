-- ===== src/Loop/Reach.antt =====
-- The worlds that the daemon reaches, whatever it receives and whatever the system answers.
use mathlib.Core.Option
use nav.Base.{◌≡◌, true, Option, none, some, [], ◌∷◌, Bytes, ℤ}
use nav.Run.{Run, ok}
use nav.Run.Ensures.{Ensures, Ensures-bind}
use nav.CString.{Token, mem, strtok_r}
use nav.CString.Laws.{strtok_r-ends}
use nav.World.{World, Os}
use nav.Commands.Replies.{Args}
use nav.Commands.Invariant.{IsWellFormed}
use nav.Commands.Dispatch.{dispatch_command}
use nav.Commands.Dispatch.Keeps.{dispatch-IsWellFormed}
use nav.Commands.Tags.{space}
use nav.Loop.{
  Round, recv, strtol, to_int, dispatch_args, parse_command, parse_pid, parse_line, round,
}

-- what holds of the world, and of every world that a command leaves, holds behind a round
module _ (os : Os) (w : World) (P : World → Type 0) (same : P w)
    (each : (pid : ℤ) (args : Args) (cmd_str : Bytes)
      → Ensures P (dispatch_command os w cmd_str pid args)) where
  abbrev Kept : Run Round → Type 0
  Kept = Ensures (λ r. P r.1)

  parse_command-Kept : (pid : ℤ) (t : Option Token) → Kept (parse_command os w pid t)
  unfolding parse_command dispatch_args
  parse_command-Kept pid none = same
  parse_command-Kept pid (some t) =
      Ensures-bind (λ _. Unit) _ (strtok_r (some t.save) []) _ (strtok_r-ends _ _)
        λ args _.
          Ensures-bind P _ (dispatch_command os w t.text pid (Option.map mem args)) _
            (each pid (Option.map mem args) t.text) λ w' h. h

  parse_pid-Kept : (save : Bytes) (n : Option ℤ) → Kept (parse_pid os w save n)
  unfolding parse_pid
  parse_pid-Kept save none = same
  parse_pid-Kept save (some n) =
      Ensures-bind (λ _. Unit) _ (strtok_r (some save) space) _ (strtok_r-ends _ _)
        λ cmd _. parse_command-Kept (to_int n) cmd

  parse_line-Kept : (t : Option Token) → Kept (parse_line os w t)
  unfolding parse_line
  parse_line-Kept none = same
  parse_line-Kept (some t) = parse_pid-Kept t.save (strtol t.text)

  pub round-Kept : (old datagram : Bytes) → Kept (round os w old datagram)
  unfolding round
  round-Kept old [] = same
  round-Kept old (c ∷ datagram) =
      Ensures-bind (λ _. Unit) _ (strtok_r (some (recv (c ∷ datagram) old)) space) _
        (strtok_r-ends _ _) λ line _. parse_line-Kept line

-- `w'` can come from `w` by rounds of the loop, each with any datagram, any bytes in the buffer before
-- it, and any answers of the system
pub data Reaches (w : World) : World → Type 0 where
  start : Reaches w w
  next :
      {w' w'' : World} (os : Os) (old datagram : Bytes)
      → Reaches w w'
      → round os w' old datagram ≡ ok (true, w'')
      → Reaches w w''

-- Every world that rounds of the loop reach from a well-formed one is well-formed.
pub reachable-IsWellFormed : {w w' : World} → IsWellFormed w → Reaches w w' → IsWellFormed w'
reachable-IsWellFormed v start = v
reachable-IsWellFormed v (next {w' = u} os old datagram before step) =
    let v' = reachable-IsWellFormed v before in
    rw step at (round-Kept os u IsWellFormed v' (dispatch-IsWellFormed os u v') old datagram)
