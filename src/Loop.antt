-- ===== src/Loop.antt =====
-- src/daemon/main.c: a round of `loop`, which splits a datagram into a process id, a command and arguments.
pub mod Buffer
pub mod Reach
pub mod Saved
pub mod Served
pub mod Stale
pub mod Decimal
pub mod Message
pub mod Arguments
pub mod Address
use nav.Base.{
  ℕ, zero, suc, ◌+◌, ◌-◌, ◌*◌, ◌%◌, ◌^◌, Bool, true, false, ◌&&◌, ◌||◌, Option, none, some, [], ◌∷◌,
  ◌++◌, Bytes, ℤ, pos, negsuc, length, take, drop, leb, ltb, ◌==◌, if◌then◌else◌,
}
use mathlib.Core.Option
use nav.Run.{Run, ok, fault, ◌>>=◌}
use nav.CString.{Token, mem, strtok_r}
use nav.World.{World, Os}
use nav.Commands.Replies.{Args}
use nav.Commands.Tags.{space}
use nav.Commands.Dispatch.{dispatch_command}

abbrev pub is_digit : ℕ → Bool
is_digit c = leb b'0' c && leb c b'9'

-- `isspace`
abbrev pub is_space : ℕ → Bool
is_space c = (c == b' ') || (leb 9 c && leb c 13)

unfoldable pub skip_space : Bytes → Bytes
skip_space [] = []
skip_space (c ∷ s) = if is_space c then skip_space s else c ∷ s

-- the value of the digits in front, after `acc`
unfoldable pub digits_value : ℕ → Bytes → ℕ
digits_value acc [] = acc
digits_value acc (c ∷ s) =
    let value = digits_value (acc * 10 + (c - b'0')) s in if is_digit c then value else acc

-- the negative of a number
abbrev pub negate : ℕ → ℤ
negate zero = pos 0
negate (suc n) = negsuc n

-- a sign and digits, as a `long` of 64 bits; `none` if that is out of range
unfoldable pub signed_value : Bytes → Option ℤ
unfolding digits_value
signed_value [] = some (pos 0)
signed_value (c ∷ s) =
    if c == b'-'
    then (if leb (digits_value 0 s) (2 ^ 63) then some (negate (digits_value 0 s)) else none)
    else let n = if c == b'+' then digits_value 0 s else digits_value 0 (c ∷ s) in
      if ltb n (2 ^ 63) then some (pos n) else none

-- `strtol` in base 10; `none` is ERANGE
unfoldable pub strtol : Bytes → Option ℤ
unfolding skip_space signed_value
strtol s = signed_value (skip_space s)

-- the conversion of a `long` to an `int` of 32 bits
unfoldable pub to_int : ℤ → ℤ
to_int (pos n) = let m = n % 2 ^ 32 in if ltb m (2 ^ 31) then pos m else negsuc (2 ^ 32 - 1 - m)
to_int (negsuc n) = let m = n % 2 ^ 32 in if ltb m (2 ^ 31) then negsuc m else pos (2 ^ 32 - 1 - m)

abbrev pub buf_size : ℕ
buf_size = 100

-- The receive buffer after `recv`: the datagram, cut to the size, over what was there. `old` goes on
-- behind the buffer.
unfoldable pub recv : Bytes → Bytes → Bytes
recv datagram old = take buf_size datagram ++ drop (length (take buf_size datagram)) old

-- whether the loop goes on, and the world
abbrev pub Round : Type 0
Round = Bool × World

unfoldable pub dispatch_args : Os → World → ℤ → Bytes → Option Token → Run Round
dispatch_args os w pid cmd_str t = do
  w' ← dispatch_command os w cmd_str pid (Option.map mem t)
  ok (true, w')

-- an empty command string ends the round
unfoldable pub parse_command : Os → World → ℤ → Option Token → Run Round
unfolding dispatch_args
parse_command os w pid none = ok (true, w)
parse_command os w pid (some t) = do
  args ← strtok_r (some t.save) []
  dispatch_args os w pid t.text args

unfoldable pub parse_pid : Os → World → Bytes → Option ℤ → Run Round
unfolding parse_command
parse_pid os w save none = ok (false, w)
parse_pid os w save (some n) = do
  cmd ← strtok_r (some save) space
  parse_command os w (to_int n) cmd

unfoldable pub parse_line : Os → World → Option Token → Run Round
unfolding parse_pid
parse_line os w none = ok (true, w)
parse_line os w (some t) = parse_pid os w t.save (strtol t.text)

-- one round; an empty datagram is ignored, and so is a failure of `recv`, for which `datagram` is empty
unfoldable pub round : Os → World → Bytes → Bytes → Run Round
unfolding parse_line recv
round os w old [] = ok (true, w)
round os w old (c ∷ datagram) = do
  line ← strtok_r (some (recv (c ∷ datagram) old)) space
  parse_line os w line
