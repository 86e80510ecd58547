-- ===== src/Loop/Arguments.antt =====
-- The arguments that a round of the loop in src/daemon/main.c reads: all up to the NUL behind a message.
use mathlib.Core.Option
use nav.Utils.Terminated.{has_nul, has_nul-append}
use nav.Base.{
  Bool-cases, inl, inr, ◌==◌, if◌then◌else◌, ℕ, ◌^◌, ◌≡◌, refl, ap, ◌∙◌, ◌≤◌, ◌<◌, true, false,
  Option, some, none, List, [], ◌∷◌, ◌++◌, append_assoc, drop, length, take_all, Bytes, pos, arith,
}
use nav.Run.{ok}
use nav.CString.{Token, mem, strtok_r, scan_token, token_at, print_nat}
use nav.World.{World, Os}
use nav.Commands.Replies.{Args}
use nav.Commands.Tags.Parse.{IsName, strtok-word}
use nav.Commands.Dispatch.{dispatch_command}
use nav.Loop.{buf_size, recv, dispatch_args, parse_command, parse_pid, parse_line, round}
use nav.Loop.Decimal.{print_nat-IsNumeral, IsNumeral-IsName, strtol-print_nat, to_int_id}
use nav.Loop.Message.{sentence, sentence_long, then_go_on, round-line}

-- the arguments at a pointer
abbrev pub args_at : Bytes → Args
args_at [] = none
args_at (c ∷ m) = if c == 0 then none else some (c ∷ m)

pub args_at-word : (word y : Bytes) → IsName word → args_at (word ++ y) ≡ some (word ++ y)
args_at-word [] y h = absurd h
args_at-word (c ∷ s) y h =
    let some_byte : (c == 0) ≡ false = ground (arith, h.0.0) in rw some_byte refl

scan-all : (m : Bytes) → has_nul m ≡ true → (t : Token) × (scan_token [] m ≡ ok t) × (mem t ≡ m)
unfolding scan_token has_nul
scan-all [] h = absurd (cc h)
scan-all (c ∷ m) h = elim (Bool-cases (c == 0)) [
  | inl z ↦
      let nul : c ≡ 0 = ground arith in
      rw z (record { text = []; after = m; save = 0 ∷ m }, refl, rw nul refl)
  | inr z ↦
      let (t, run, same) = scan-all m (rw z at h) in
      rw (z, run) (record t { text = c ∷ t.text }, refl, ap (λ l. c ∷ l) same)
]

-- with no delimiters `strtok_r` takes all that is there
strtok-all :
    (m : Bytes)
    → has_nul m ≡ true
    → (t : Option Token) × (strtok_r (some m) [] ≡ ok t) × (Option.map mem t ≡ args_at m)
unfolding strtok_r token_at scan_token has_nul
strtok-all [] h = absurd (cc h)
strtok-all (c ∷ m) h = elim (Bool-cases (c == 0)) [
  | inl z ↦ rw z (none, refl, refl)
  | inr z ↦
      let (t, run, same) = scan-all m (rw z at h) in
      rw (z, run) (some (record t { text = c ∷ t.text }), refl, ap (λ l. some (c ∷ l)) same)
]

message_parts :
    (a b : Bytes) (words : List Bytes) (x : Bytes)
    → sentence (a ∷ b ∷ words) ++ x ≡ a ++ b' ' ∷ (b ++ b' ' ∷ (sentence words ++ x))
unfolding sentence
message_parts a b words x =
    append_assoc a (b' ' ∷ (b ++ b' ' ∷ sentence words)) x
    ∙ ap (λ l. a ++ b' ' ∷ l) (append_assoc b (b' ' ∷ sentence words) x)

pub recv-whole :
    (datagram old m : Bytes)
    → length datagram ≤ buf_size
    → drop (length datagram) old ≡ m
    → recv datagram old ≡ datagram ++ m
unfolding recv
recv-whole datagram old m short behind = rw (take_all buf_size datagram short, behind) refl

-- A message in front of any memory in which a NUL follows: the round dispatches its command with all that is
-- there up to that NUL.
pub round-args :
    (os : Os) (w : World) (pid : ℕ) (cmd_str : Bytes) (words : List Bytes) (old x : Bytes)
    → pid < 2 ^ 31
    → IsName cmd_str
    → length (sentence (print_nat pid ∷ cmd_str ∷ words)) ≤ 100
    → drop (length (sentence (print_nat pid ∷ cmd_str ∷ words))) old ≡ x
    → has_nul x ≡ true
    → round os w old (sentence (print_nat pid ∷ cmd_str ∷ words))
      ≡ then_go_on (dispatch_command os w cmd_str (pos pid) (args_at (sentence words ++ x)))
unfolding parse_line parse_pid parse_command dispatch_args
round-args os w pid cmd_str words old x small hc short behind ends =
    let message = sentence (print_nat pid ∷ cmd_str ∷ words) in
    let rest = sentence words ++ x in
    let buffer : recv message old ≡ print_nat pid ++ b' ' ∷ (cmd_str ++ b' ' ∷ rest) =
      recv-whole message old x short behind ∙ message_parts (print_nat pid) cmd_str words x in
    let (t, got, same) = strtok-all rest (has_nul-append (sentence words) x ends) in
    round-line os w old message (sentence_long (print_nat pid) (cmd_str ∷ words))
    ∙ rw (
      buffer,
      strtok-word (print_nat pid) (cmd_str ++ b' ' ∷ rest)
          (IsNumeral-IsName _ (print_nat-IsNumeral pid)),
      strtol-print_nat pid small,
      to_int_id pid small,
      strtok-word cmd_str rest hc,
      got,
      same,
    )
