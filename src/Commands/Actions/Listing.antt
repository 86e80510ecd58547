-- ===== src/Commands/Actions/Listing.antt =====
-- What `actions` prints, and when it writes past its buffer.
use nav.Base.{
  ℕ, ◌+◌, ◌≡◌, sym, ap, ◌∙◌, ◌≤◌, ◌<◌, some, List, [], ◌∷◌, ◌++◌, append_assoc, append-nil, length,
  length-append, Bytes, ℤ, arith, ltb, if◌then◌else◌, Bool-cases, inl, inr,
}
use nav.Run.{ok, fault}
use nav.CString.Bounds.{sprintf-fits, sprintf-overflows}
use nav.Shell.{Shell, Action}
use nav.World.{World, Os, sendto}
use nav.Commands.Replies.{Args, get_shell}
use nav.Commands.Actions.{actions_size, action_line, actions_loop, cmd_actions}

-- the actions from the top, a line each, numbered from `i`
unfoldable pub stack_text : ℕ → List Action → Bytes
stack_text i [] = []
stack_text i (a ∷ rest) = action_line i a ++ stack_text (i + 1) rest

actions_loop-fits :
    (xs : List Action) (i : ℕ) (out : Bytes)
    → length out + length (stack_text i xs) < actions_size
    → actions_loop xs i out ≡ ok (out ++ stack_text i xs)
unfolding actions_loop stack_text
actions_loop-fits [] i out h = ap ok (sym (append-nil out))
actions_loop-fits (a ∷ xs) i out h =
    let line = action_line i a in
    let total = length-append line (stack_text (i + 1) xs) in
    rw (sprintf-fits actions_size out line (omega (arith, total))) (
      actions_loop-fits xs (i + 1) (out ++ line) (omega (arith, total, length-append out line))
      ∙ ap ok (append_assoc out line (stack_text (i + 1) xs)))

actions_loop-overflows :
    (xs : List Action) (i : ℕ) (out : Bytes)
    → length out < actions_size
    → actions_size ≤ length out + length (stack_text i xs)
    → actions_loop xs i out ≡ fault
unfolding actions_loop stack_text
actions_loop-overflows [] i out small h = absurd (omega arith)
actions_loop-overflows (a ∷ xs) i out small h =
    let line = action_line i a in
    let total = length-append line (stack_text (i + 1) xs) in
    elim (Bool-cases (ltb (length out + length line) actions_size)) [
      | inl e ↦
          let fits : length out + length line < actions_size = ground arith in
          rw (sprintf-fits actions_size out line fits) (
            actions_loop-overflows xs (i + 1) (out ++ line)
              (omega (arith, length-append out line, fits))
              (omega (arith, total, length-append out line)))
      | inr e ↦
          let over : actions_size ≤ length out + length line = ground arith in
          rw (sprintf-overflows actions_size out line over)
    ]

pub actions_loop_lem :
    (xs : List Action)
    → actions_loop xs 1 []
      ≡ (if ltb (length (stack_text 1 xs)) actions_size then ok (stack_text 1 xs) else fault)
actions_loop_lem xs = elim (Bool-cases (ltb (length (stack_text 1 xs)) actions_size)) [
  | inl e ↦ rw e (actions_loop-fits xs 1 [] (ground arith))
  | inr e ↦ rw e (actions_loop-overflows xs 1 [] (omega arith) (ground arith))
]

-- `actions` sends a registered shell its actions, the latest first, numbered from 1, if the text takes less than
-- 1024 bytes; otherwise it writes past its buffer.
pub actions-stack :
    (os : Os) (w : World) (pid : ℤ) (args : Args) (s : Shell)
    → get_shell w pid ≡ some s
    → cmd_actions os w pid args ≡ (
        if ltb (length (stack_text 1 s.actions.items)) 1024
        then ok (sendto w s.sun_path (stack_text 1 s.actions.items))
        else fault)
unfolding cmd_actions
actions-stack os w pid args s e =
    rw (e, actions_loop_lem s.actions.items)
      (elim (Bool-cases (ltb (length (stack_text 1 s.actions.items)) 1024)) [
        | inl fits ↦ rw fits
        | inr over ↦ rw over
      ])
