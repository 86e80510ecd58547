-- ===== src/Tests/Servers.antt =====
-- Requests to the daemon of `Data`, and what its specification answers.
use mathlib.Core.Option
use nav.Commands.Replies.{get_shell}
use nav.Commands.Tags.Parse.{IsName, spell}
use nav.Server.Overrun.{tag_request-leaves}
use nav.Server.Isolation.{stack_after, loop-stack}
use nav.Server.View.{stack_of}
use nav.Server.{Server, all_names, joined}
use nav.Server.Refines.{HasRoom}
use nav.Utils.{valid_path}
use nav.Utils.Words.{has_blank}
use nav.Utils.Terminated.{has_nul}
use nav.Base.{
  some, All, ◌^◌, ◌<◌, ℕ, ◌≡◌, refl, true, List, [], ◌∷◌, Bytes, bytes_eq, codes, int_eq, replicate,
  pos, arith,
}
use nav.Run.{ok, fault}
use nav.Run.Ensures.{Returns}
use nav.CString.{cut_then, cut_token, print_nat, strcmp, strncmp, strtok_r}
use nav.ItemList.{get_first, list_get_node}
use nav.Tag.{compare_tag_tag}
use nav.Shell.{compare_shell_pid}
use nav.World.{World, Os}
use nav.Commands.Invariant.{IsWellFormed}
use nav.Commands.Tags.Map.{path_in}
use nav.Commands.Dispatch.{cmd_name, dispatch_command, lookup_command}
use nav.Loop.{round, recv, strtol, skip_space, signed_value, digits_value}
use nav.Loop.Message.{sentence}
use nav.Loop.Buffer.{loop, rounds, left, cut_pid, cut_command, cut_args, command_calls}
use nav.Loop.Buffer.Safe.{AllSafe, loop-Returns}
use nav.Server.{Request, bind, pop_path, find, push_path, command_of, words_of_request, serve}
use nav.Server.View.{view}
use nav.Server.Refines.{Gives, valid_in}
use nav.Server.Serves.{dispatch-Serves}
use nav.Server.Rounds.{Turn, CanServe, message_of}
use nav.Server.Replay.{received, CanReplay, SizesFit, Replays, loop-Replays}
use nav.Tests.Data.{
  os, shell, found_shell, world, world-Fits, world-IsWellFormed, behind, behind_blank,
  printable-IsWord,
}

word_a : IsName (codes "a")
word_a = printable-IsWord (codes "a") refl

word_z : IsName (codes "/z")
word_z = printable-IsWord (codes "/z") refl

dispatch-Serves_example :
    Returns
      (Gives world
        (pos 7)
        (serve (valid_in os) (pos 7) (bind (codes "a") (codes "/z")) (view world)))
      (dispatch_command os world
        (cmd_name (command_of (bind (codes "a") (codes "/z"))))
        (pos 7)
        (some (spell (codes "a" ∷ codes "/z" ∷ []) behind)))
unfolding words_of_request
dispatch-Serves_example =
    dispatch-Serves os world world-IsWellFormed (pos 7) (bind (codes "a") (codes "/z"))
      (some (spell (codes "a" ∷ codes "/z" ∷ []) behind)) (word_a, (word_z, tt))
      (behind, behind_blank, refl) refl refl tt

abbrev ask : ℕ → Request → Turn
ask pid r = record { os = os; pid = pid; request = r }

-- `7 add a /z `, then shorter messages: `7 pop `, `7 list `, `7 get a ` and `12 push /z `
abbrev turns : List Turn
turns =
    ask 7 (bind (codes "a") (codes "/z"))
    ∷ ask 7 pop_path
    ∷ ask 7 all_names
    ∷ ask 7 (find (codes "a"))
    ∷ ask 12 (push_path (codes "/z"))
    ∷ []

can_ask :
    (pid : ℕ) (r : Request) (a : Server)
    → pid < 2 ^ 31
    → All IsName (words_of_request r)
    → HasRoom (pos pid) r a
    → CanServe (ask pid r) a
can_ask pid r a small words room = record {
  pid = small;
  words = words;
  node_alloc = refl;
  data_alloc = refl;
  room = room;
}

turns-CanReplay : CanReplay turns (view world)
unfolding list_get_node get_first compare_shell_pid int_eq path_in compare_tag_tag strcmp bytes_eq
    serve words_of_request joined valid_path
turns-CanReplay = (
  can_ask 7 (bind (codes "a") (codes "/z")) _ (omega arith) (word_a, (word_z, tt)) tt,
  (
    can_ask 7 pop_path _ (omega arith) tt (omega arith),
    (
      can_ask 7 all_names _ (omega arith) tt (omega arith),
      (
        can_ask 7 (find (codes "a")) _ (omega arith) (word_a, tt) (omega arith),
        (can_ask 12 (push_path (codes "/z")) _ (omega arith) (word_z, tt) tt, tt),
      ),
    ),
  ),
)

turns-SizesFit : SizesFit 0 turns
unfolding sentence print_nat cmd_name command_of words_of_request
turns-SizesFit = (
  omega arith,
  omega arith,
  (omega arith, tt, (omega arith, tt, (omega arith, tt, (omega arith, tt, tt)))),
)

loop-Replays_example : Returns (Replays world turns) (loop behind (received turns) world)
loop-Replays_example =
    loop-Replays behind behind_blank turns world world-IsWellFormed turns-CanReplay turns-SizesFit

loop-stack_example :
    Returns
      (λ r.
        Option.map stack_of (get_shell r.1 (pos 12))
        ≡ stack_after (pos 12) turns (Option.map stack_of (get_shell world (pos 12))))
      (loop behind (received turns) world)
loop-stack_example =
    loop-stack behind behind_blank turns world (pos 12) world-IsWellFormed turns-CanReplay
      turns-SizesFit

-- `x`, which is no command, then `7 get a`, with a newline behind each
abbrev datagrams : List (Os × Bytes)
datagrams = (os, codes "x\n") ∷ (os, codes "7 get a\n") ∷ []

no_command : round os world (replicate 100 0) (codes "x\n") ≡ ok (true, world)
unfolding round recv strtok_r strtol skip_space signed_value digits_value
no_command = refl

same_world :
    (w' : World) → round os world (replicate 100 0) (codes "x\n") ≡ ok (true, w') → world ≡ w'
same_world w' e = cc (no_command, e)

datagrams-AllSafe : AllSafe datagrams world (replicate 100 0)
unfolding recv strtok_r left lookup_command strncmp cut_then cut_token cut_pid cut_command cut_args
    command_calls strtol skip_space signed_value digits_value
datagrams-AllSafe = (
  omega arith,
  refl,
  world-Fits,
  tt,
  λ w' e. (omega arith, refl, rw (← same_world w' e) world-Fits, tt, λ w'' e'. tt),
)

-- with nothing behind the buffer that can be read
loop-Returns_example : Returns (λ r. IsWellFormed r.1) (loop [] datagrams world)
loop-Returns_example = loop-Returns [] datagrams world world-IsWellFormed datagrams-AllSafe

-- `7 get a ` in a buffer of zeros
tag_request_example :
    rounds ((os, message_of (ask 7 (find (codes "a")))) ∷ []) world (replicate 100 0) ≡ fault
unfolding words_of_request
tag_request_example =
    tag_request-leaves (ask 7 (find (codes "a"))) [] world shell (replicate 100 0) (replicate 92 0)
      tt found_shell (omega arith) (word_a, tt)
      (unfold sentence print_nat cmd_name command_of in omega arith)
      (unfold sentence print_nat cmd_name command_of in refl) (unfold has_nul in refl)
      (unfold has_blank in refl)
