-- ===== src/Tests/Receive.antt =====
-- Datagrams that the loop receives, over an empty buffer and over an earlier message.
use nav.Base.{
  ℕ, ◌≡◌, refl, ◌∙◌, ap, true, some, none, [], ◌∷◌, ◌++◌, Bytes, int_eq, codes, replicate, pos,
  arith,
}
use nav.Run.{ok}
use nav.CString.{
  cut_then, cut_token, skip_delims, token_at, scan_token, strtok_r, print_nat, strncmp,
}
use nav.ItemList.{get_first, list_get_node}
use nav.Shell.{compare_shell_pid}
use nav.Loop.{recv, strtol, skip_space, signed_value, digits_value, to_int}
use nav.Loop.Buffer.{left, cut_line, cut_pid, cut_command, cut_args, command_calls, handler_calls}
use nav.World.{World, sendto}
use nav.Commands.Invariant.{IsWellFormed}
use nav.Commands.Tags.Parse.{IsName, spell}
use nav.Commands.Actions.{cmd_pop, pop_action}
use nav.Commands.Dispatch.{cmd_func, lookup_command, run_command, dispatch_command}
use nav.Loop.{round}
use nav.Loop.Reach.{start, next, reachable-IsWellFormed}
use nav.Loop.Message.{sentence, then_go_on, round-dispatch}
use nav.Commands.Replies.{bad_reply}
use nav.Loop.Stale.{stale_add-Refused}
use nav.Utils.Terminated.{terminated}
use nav.Utils.Words.{has_blank}
use nav.Commands.Dispatch.{add, cmd_name}
use nav.Tests.Data.{shell, found_shell}
use nav.Loop.Address.{socket_path_injective}
use nav.Tests.Data.{os, dir, world, world-IsWellFormed, found_other, behind, printable-IsWord}

word_pop : IsName (codes "pop")
word_pop = printable-IsWord (codes "pop") refl

word_add : IsName (codes "add")
word_add = printable-IsWord (codes "add") refl

word_y : IsName (codes "/y")
word_y = printable-IsWord (codes "/y") refl

-- `12 pop ` over an empty buffer
pop_dispatched :
    round os world (replicate 100 0) (sentence (codes "12" ∷ codes "pop" ∷ []))
    ≡ then_go_on (dispatch_command os world (codes "pop") (pos 12) none)
unfolding print_nat sentence spell
pop_dispatched =
    round-dispatch os world 12 (codes "pop") [] [] (replicate 100 0) (replicate 92 0) (omega arith)
      word_pop tt tt (omega arith) refl

abbrev after_pop : World
after_pop = sendto world (codes "/c/12.sock") bad_reply

pop_replies : dispatch_command os world (codes "pop") (pos 12) none ≡ ok after_pop
unfolding dispatch_command run_command cmd_func lookup_command strncmp cmd_pop pop_action
pop_replies = rw found_other

pop_step :
    round os world (replicate 100 0) (sentence (codes "12" ∷ codes "pop" ∷ []))
    ≡ ok (true, after_pop)
pop_step = pop_dispatched ∙ ap then_go_on pop_replies

reachable_example : IsWellFormed after_pop
reachable_example =
    reachable-IsWellFormed world-IsWellFormed
      (next os (replicate 100 0) (sentence (codes "12" ∷ codes "pop" ∷ [])) start pop_step)

-- what `7 push /a /y ` leaves in the receive buffer, with the NULs of `strtok_r`
abbrev pushed : Bytes
pushed = b'7' ∷ 0 ∷ codes "push" ++ 0 ∷ codes "/a /y " ++ replicate 87 0 ++ behind

left-pushed : left world (replicate 100 0 ++ behind) (codes "7 push /a /y ") ≡ pushed
unfolding left cut_line cut_pid cut_command cut_args command_calls handler_calls cut_then cut_token
    recv strtok_r skip_delims token_at scan_token strtol skip_space signed_value digits_value to_int
    lookup_command strncmp get_first list_get_node compare_shell_pid int_eq
left-pushed = refl

-- then `12 add cc ` comes: the daemon adds the tag `cc` with the old path
round_dispatch_example :
    round os world pushed (sentence (codes "12" ∷ codes "add" ∷ codes "cc" ∷ []))
    ≡ then_go_on (
        dispatch_command os world
          (codes "add")
          (pos 12)
          (some (spell (codes "cc" ∷ codes "/y" ∷ []) (replicate 86 0 ++ behind))))
unfolding print_nat sentence spell
round_dispatch_example =
    round-dispatch os world 12 (codes "add") (codes "cc" ∷ []) (codes "/y" ∷ []) pushed
      (replicate 86 0 ++ behind) (omega arith) word_add (printable-IsWord (codes "cc") refl, tt)
      (word_y, tt) (omega arith) refl

-- and if `7 add c /z ` comes, the daemon refuses it, since it reads a third word
stale_add_example :
    round os world pushed (sentence (print_nat 7 ∷ cmd_name add ∷ codes "c" ∷ codes "/z" ∷ []))
    ≡ ok (true, sendto world (codes "/c/7.sock") bad_reply)
unfolding sentence print_nat cmd_name
stale_add_example =
    stale_add-Refused (codes "c") (codes "/z") b'y' (b' ' ∷ replicate 87 0 ++ behind)
      (printable-IsWord (codes "c") refl) (printable-IsWord (codes "/z") refl) (omega arith)
      (omega arith) (unfold terminated has_blank in refl) os world 7 shell pushed found_shell
      (omega arith) (omega arith) refl

socket_path_injective_example : ◌≡◌ {A = ℕ} 4194303 4194303
socket_path_injective_example =
    socket_path_injective dir 4194303 4194303 (omega arith) (omega arith) (omega arith) refl
