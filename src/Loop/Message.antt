-- ===== src/Loop/Message.antt =====
-- What a round of the loop in src/daemon/main.c makes of a message of the client.
use mathlib.Core.Option
use nav.Base.{
  ℕ, ◌^◌, ◌≡◌, refl, sym, ap, ◌∙◌, ◌≢◌, ◌≤◌, ◌<◌, true, false, Option, some, none, List, [], ◌∷◌,
  ◌++◌, append_assoc, drop, length, take_all, length-append, All, All-append, All-mono, Bytes, pos,
  arith,
}
use nav.Run.{Run, ok, ◌>>=◌}
use nav.CString.{is_delim, Token, mem, strtok_r, print_nat}
use nav.CString.Laws.{Plain, strtok-nul}
use nav.Utils.{is_blank}
use nav.World.{World, Os}
use nav.Commands.Replies.{Args}
use nav.Commands.Tags.{space}
use nav.Commands.Tags.Parse.{IsName, spell, strtok-word}
use nav.Commands.Dispatch.{dispatch_command}
use nav.Loop.{Round, recv, dispatch_args, parse_command, parse_pid, parse_line, round}
use nav.Loop.Decimal.{print_nat-IsNumeral, IsNumeral-IsName, strtol-print_nat, to_int_id}

-- the arguments behind the command
abbrev pub args_of : List Bytes → Bytes → Args
args_of [] m = none
args_of (word ∷ words) m = some (spell (word ∷ words) m)

abbrev pub then_go_on : Run World → Run Round
then_go_on r = do w' ← r; ok (true, w')

-- the words with a space behind each, as the client prints them
unfoldable pub sentence : List Bytes → Bytes
sentence [] = []
sentence (w ∷ ws) = w ++ b' ' ∷ sentence ws

sentence-append : (ws vs : List Bytes) (m : Bytes) → sentence ws ++ spell vs m ≡ spell (ws ++ vs) m
unfolding sentence spell
sentence-append [] vs m = refl
sentence-append (w ∷ ws) vs m =
    append_assoc w (b' ' ∷ sentence ws) (spell vs m)
    ∙ ap (λ l. w ++ b' ' ∷ l) (sentence-append ws vs m)

pub spell-sentence : (ws : List Bytes) (m : Bytes) → spell ws m ≡ sentence ws ++ 0 ∷ m
unfolding sentence spell
spell-sentence [] m = refl
spell-sentence (w ∷ ws) m =
    ap (λ l. w ++ b' ' ∷ l) (spell-sentence ws m)
    ∙ sym (append_assoc w (b' ' ∷ sentence ws) (0 ∷ m))

word-Plain_nil : (w : Bytes) → IsName w → Plain [] w
word-Plain_nil [] h = absurd h
word-Plain_nil (c ∷ s) h =
    All-mono (λ d. (d ≢ 0) × (is_blank d ≡ false)) (λ d. (d ≢ 0) × (is_delim [] d ≡ false)) (c ∷ s)
      (λ d p. (p.0, refl)) h

pub sentence-Plain : (ws : List Bytes) → All IsName ws → Plain [] (sentence ws)
unfolding sentence
sentence-Plain [] h = tt
sentence-Plain (w ∷ ws) h =
    All-append (λ d. (d ≢ 0) × (is_delim [] d ≡ false)) w (b' ' ∷ sentence ws)
      (word-Plain_nil w h.0) ((omega arith, refl), sentence-Plain ws h.1)

-- the third call, with no delimiters, takes the rest of the string
strtok-rest :
    (words : List Bytes) (m : Bytes)
    → All IsName words
    → (t : Option Token) × (strtok_r (some (spell words m)) [] ≡ ok t)
      × (Option.map mem t ≡ args_of words m)
unfolding sentence
strtok-rest [] m h = (none, unfold spell strtok_r in refl, refl)
strtok-rest ([] ∷ ws) m h = absurd h.0
strtok-rest ((c ∷ s) ∷ ws) m h =
    let same = spell-sentence ((c ∷ s) ∷ ws) m in
    (
      some (record { text = sentence ((c ∷ s) ∷ ws); after = m; save = 0 ∷ m }),
      rw same (strtok-nul [] c (s ++ b' ' ∷ sentence ws) m (sentence-Plain ((c ∷ s) ∷ ws) h)),
      ap some (sym same),
    )

pub round-line :
    (os : Os) (w : World) (old datagram : Bytes)
    → 0 < length datagram
    → round os w old datagram
      ≡ (do line ← strtok_r (some (recv datagram old)) space; parse_line os w line)
unfolding round
round-line os w old [] h = absurd (omega arith)
round-line os w old (c ∷ datagram) h = refl

pub sentence_long : (w : Bytes) (ws : List Bytes) → 0 < length (sentence (w ∷ ws))
unfolding sentence
sentence_long w ws = omega (arith, length-append w (b' ' ∷ sentence ws))

module _ (os : Os) (w : World) (pid : ℕ) (cmd_str : Bytes) (words : List Bytes) (m : Bytes) where
  -- the buffer holds the words of a message, then a NUL, then anything
  pub line-dispatch :
      pid < 2 ^ 31
      → IsName cmd_str
      → All IsName words
      → (do
        line ← strtok_r (some (spell (print_nat pid ∷ cmd_str ∷ words) m)) space
        parse_line os w line)
        ≡ then_go_on (dispatch_command os w cmd_str (pos pid) (args_of words m))
  unfolding parse_line parse_pid parse_command dispatch_args spell
  line-dispatch small hc hw =
      let (t, got, same) = strtok-rest words m hw in
      rw (
        strtok-word (print_nat pid) (spell (cmd_str ∷ words) m)
            (IsNumeral-IsName _ (print_nat-IsNumeral pid)),
        strtol-print_nat pid small,
        to_int_id pid small,
        strtok-word cmd_str (spell words m) hc,
        got,
        same,
      )

-- What lies behind a message in the receive buffer is read with it: if the old content goes on, behind
-- the place where a message of at most 100 bytes ends, with some words that have a space behind each and a
-- NUL, then the round dispatches the command of the message, for its process id, with the words of the
-- message and those old words as the arguments. With no old words these are the arguments that the
-- client sent. The process id is below 2^31, and all words are nonempty, without NUL, space and newline.
pub round-dispatch :
    (os : Os) (w : World) (pid : ℕ) (cmd_str : Bytes) (words stale : List Bytes) (old m : Bytes)
    → pid < 2 ^ 31
    → IsName cmd_str
    → All IsName words
    → All IsName stale
    → length (sentence (print_nat pid ∷ cmd_str ∷ words)) ≤ 100
    → drop (length (sentence (print_nat pid ∷ cmd_str ∷ words))) old ≡ spell stale m
    → round os w old (sentence (print_nat pid ∷ cmd_str ∷ words))
      ≡ then_go_on (dispatch_command os w cmd_str (pos pid) (args_of (words ++ stale) m))
unfolding recv
round-dispatch os w pid cmd_str words stale old m small hc hw hs short behind =
    let message = sentence (print_nat pid ∷ cmd_str ∷ words) in
    let whole = take_all 100 message short in
    let buffer : recv message old ≡ spell (print_nat pid ∷ cmd_str ∷ words ++ stale) m =
      rw (whole, behind) (sentence-append (print_nat pid ∷ cmd_str ∷ words) stale m) in
    round-line os w old message (sentence_long (print_nat pid) (cmd_str ∷ words))
    ∙ rw buffer (
        line-dispatch os w pid cmd_str (words ++ stale) m small hc
          (All-append IsName words stale hw hs))
