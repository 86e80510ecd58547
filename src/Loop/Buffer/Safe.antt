-- ===== src/Loop/Buffer/Safe.antt =====
-- The loop in src/daemon/main.c over datagrams that end with a newline: it stays in its buffer.
use nav.Base.{
  ◌≡◌, refl, ap, ◌∙◌, ◌≤◌, true, false, Option, none, some, List, [], ◌∷◌, ◌++◌, Bytes, ℤ, length,
  replicate,
}
use mathlib.Core.Option
use nav.Run.{Run, ok}
use nav.Run.Ensures.{Returns, Returns-bind, Returns-eq}
use nav.CString.{Token, mem, strtok_r}
use nav.Utils.Terminated.{IsTerminated, IsRest, IsTerminated-IsRest, NoneOrSafe, strtok_r-Returns}
use nav.World.{World, Os}
use nav.Commands.Invariant.{IsWellFormed}
use nav.Commands.Safety.{Fits, SafeArgs}
use nav.Commands.Safety.Total.{dispatch-Returns}
use nav.Commands.Tags.{space}
use nav.Commands.Dispatch.{CommandId, lookup_command, dispatch_command}
use nav.Loop.{
  Round, recv, buf_size, strtol, to_int, dispatch_args, parse_command, parse_pid, parse_line, round,
}
use nav.Loop.Buffer.{left, rounds, loop}
use nav.Loop.Buffer.Lines.{EndsLine, IsLined, zeros-IsLined, recv-IsTerminated, left-IsLined}

-- `add`, `delete` and `get` have arguments
abbrev pub ArgsGiven : Run (Option Token) → Option CommandId → Type 0
ArgsGiven (ok none) c = SafeArgs none c
ArgsGiven _ c = Unit

abbrev pub CommandGiven : Run (Option Token) → Type 0
CommandGiven (ok (some t)) = ArgsGiven (strtok_r (some t.save) []) (lookup_command t.text)
CommandGiven _ = Unit

abbrev pub HasArgs : Run (Option Token) → Type 0
HasArgs (ok (some t)) = CommandGiven (strtok_r (some t.save) space)
HasArgs _ = Unit

abbrev pub KeepsForm : Run Round → Type 0
KeepsForm = Returns (λ r. IsWellFormed r.1)

args-SafeArgs :
    (args : Option Token) (c : Option CommandId)
    → NoneOrSafe args
    → ArgsGiven (ok args) c
    → SafeArgs (Option.map mem args) c
args-SafeArgs none c safe given = given
args-SafeArgs (some t) c safe given = safe.0

module _ (os : Os) (w : World) (v : IsWellFormed w) (fits : Fits w) where
  parse_command-KeepsForm :
      (pid : ℤ) (cmd : Option Token)
      → NoneOrSafe cmd
      → CommandGiven (ok cmd)
      → KeepsForm (parse_command os w pid cmd)
  unfolding parse_command dispatch_args
  parse_command-KeepsForm pid none safe given = v
  parse_command-KeepsForm pid (some t) safe given =
      let (args, run, safe') =
        Returns-eq (strtok_r (some t.save) []) (strtok_r-Returns t.save [] (refl, refl) safe.1) in
      rw run (
        Returns-bind IsWellFormed _ (dispatch_command os w t.text pid (Option.map mem args)) _
          (dispatch-Returns os w v fits pid t.text (Option.map mem args)
            (args-SafeArgs args (lookup_command t.text) safe' (rw run at given)))
          λ w' h. h)

  parse_pid-KeepsForm :
      (save : Bytes) (n : Option ℤ)
      → IsRest save
      → CommandGiven (strtok_r (some save) space)
      → KeepsForm (parse_pid os w save n)
  unfolding parse_pid
  parse_pid-KeepsForm save none safe given = v
  parse_pid-KeepsForm save (some n) safe given =
      let (cmd, run, safe') =
        Returns-eq (strtok_r (some save) space) (strtok_r-Returns save space (refl, refl) safe) in
      rw run (parse_command-KeepsForm (to_int n) cmd safe' (rw run at given))

  round-KeepsForm :
      (old datagram : Bytes)
      → IsTerminated (recv datagram old)
      → HasArgs (strtok_r (some (recv datagram old)) space)
      → KeepsForm (round os w old datagram)
  unfolding round parse_line
  round-KeepsForm old [] safe given = v
  round-KeepsForm old (c ∷ datagram) safe given =
      let (line, run, safe') = Returns-eq (strtok_r (some (recv (c ∷ datagram) old)) space) (
        strtok_r-Returns (recv (c ∷ datagram) old) space (refl, refl)
          (IsTerminated-IsRest (recv (c ∷ datagram) old) safe)) in
      rw run (by_line line safe' (rw run at given))
    where
      by_line : (t : Option Token) → NoneOrSafe t → HasArgs (ok t) → KeepsForm (parse_line os w t)
      by_line none safe given = v
      by_line (some t) safe given = parse_pid-KeepsForm t.save (strtol t.text) safe.1 given

-- Each datagram is empty, or ends with a newline and has at most 99 bytes, and when it comes the texts of
-- the state fit the buffers and `add`, `delete` and `get` have arguments.
abbrev pub AllSafe : List (Os × Bytes) → World → Bytes → Type 0
AllSafe [] w buf = Unit
AllSafe ((os, []) ∷ rest) w buf = AllSafe rest w buf
AllSafe ((os, c ∷ d) ∷ rest) w buf =
    (length (c ∷ d) ≤ 99)
    × EndsLine (c ∷ d)
    × Fits w
    × HasArgs (strtok_r (some (recv (c ∷ d) buf)) space)
    × ((w' : World) → round os w buf (c ∷ d) ≡ ok (true, w') → AllSafe rest w' (left w buf (c ∷ d)))

further-KeepsForm :
    (r : Round) (next : World → Run Round)
    → IsWellFormed r.1
    → ((w' : World) → r ≡ (true, w') → KeepsForm (next w'))
    → KeepsForm (elim r.0 [ true ↦ next r.1 | false ↦ ok r ])
further-KeepsForm (true, w') next v h = h w' refl
further-KeepsForm (false, w') next v h = v

empty_round :
    (os : Os) (w : World) (buf : Bytes) (rest : List (Os × Bytes))
    → KeepsForm (rounds rest w buf)
    → KeepsForm (rounds ((os, []) ∷ rest) w buf)
unfolding rounds round left
empty_round os w buf rest h = h

module _ (behind : Bytes) where
  rounds-KeepsForm :
      (ds : List (Os × Bytes)) (w : World) (buf : Bytes)
      → IsWellFormed w
      → IsLined behind buf
      → AllSafe ds w buf
      → KeepsForm (rounds ds w buf)
  unfolding rounds
  rounds-KeepsForm [] w buf v lined safe = v
  rounds-KeepsForm ((os, []) ∷ rest) w buf v lined safe =
      empty_round os w buf rest (rounds-KeepsForm rest w buf v lined safe)
  rounds-KeepsForm ((os, c ∷ d) ∷ rest) w buf v lined safe =
      let ended = recv-IsTerminated behind buf c d lined safe.0 safe.1 in
      let (r, run, v') =
        Returns-eq (round os w buf (c ∷ d))
          (round-KeepsForm os w v safe.2 buf (c ∷ d) ended safe.3) in
      rw run (
        further-KeepsForm r (λ w'. rounds rest w' (left w buf (c ∷ d))) v'
          λ w' same'.
            rounds-KeepsForm rest w' (left w buf (c ∷ d)) (rw same' at v')
              (left-IsLined behind buf c d lined safe.0 safe.1 w) (safe.4 w' (run ∙ ap ok same')))

  -- From a well-formed state the loop, over any datagrams in any order, returns in a well-formed state,
  -- with no access outside its buffer, whatever lies behind it, also if nothing there can be read, and with no
  -- other fault, if each datagram has at most 99 bytes and is empty or ends with a newline, and if whenever
  -- one that is not empty comes the texts of the state fit the buffers of the handlers and `add`,
  -- `delete` and `get` have arguments.
  pub loop-Returns :
      (ds : List (Os × Bytes)) (w : World)
      → IsWellFormed w
      → AllSafe ds w (replicate buf_size 0 ++ behind)
      → Returns (λ r. IsWellFormed r.1) (loop behind ds w)
  unfolding loop
  loop-Returns ds w v safe = rounds-KeepsForm ds w _ v (zeros-IsLined behind) safe
