-- ===== src/Tests/Client.antt =====
-- Runs of the client against the daemon of `Data`, and of the logger.
use nav.Base.{
  ◌≡◌, refl, ◌⊎◌, ◌≢◌, ◌≤◌, ◌<◌, true, false, some, none, [], ◌∷◌, ◌++◌, All, Bytes, bytes_eq,
  codes, int_eq, length, replicate, pos, ltb, arith, if◌then◌else◌,
}
use nav.Run.{ok, fault, exit_success}
use nav.Run.Ensures.{Ensures}
use nav.CString.{snprintf, cstr, print_nat, strcmp}
use nav.Utils.Words.{has_blank}
use nav.ItemList.{get_first, list_get_node}
use nav.Tag.{compare_tag_tag}
use nav.Commands.Tags.Map.{path_in}
use nav.Commands.Dispatch.{get, cmd_name}
use nav.Loop.{round}
use nav.Loop.Message.{sentence}
use nav.Setup.{choose_path, dest_path}
use nav.Client.{
  ClientOs, cache_dir_of, client_path, daemon_path, client_main, message_size, print_args,
  print_buf, received,
}
use nav.Client.Cleanup.{IsClean, client_main-IsClean}
use nav.Client.Message.{print_args-sentence, print-received}
use nav.Client.Exchange.{Online, answer_at, exchanged}
use nav.Utils.Terminated.{terminated}
use nav.Client.Served.{client_serves}
use nav.Shell.{compare_shell_pid}
use nav.Server.{find, serve, command_of, words_of_request}
use nav.Server.View.{view}
use nav.Server.Rounds.{Turn, message_of, serve_turn, CanServe}
use nav.Log.{log, log_line, lt_int, LogLevel, level_value}
use nav.Log.Levels.{level_name, log_lem}
use nav.Tests.Data.{os, world, world-IsWellFormed, behind, printable-IsWord}

-- an empty receive buffer with a newline behind it
abbrev buffer : Bytes
buffer = replicate 100 0 ++ behind

-- a client of the process 7 with these arguments, whose messages the daemon answers
abbrev client : Bytes → Bytes → ClientOs
client command argument = record {
  options = [];
  argv = print_nat 7 ∷ command ∷ (if ltb 0 (length argument) then argument ∷ [] else []);
  cache_env = some (codes "/c");
  passwd = none;
  socket = true;
  setsockopt = true;
  bind = λ p. true;
  connect = λ p. true;
  recv = λ m. answer_at world (client_path (codes "/c") (print_nat 7)) (round os world buffer m);
}

client_main-IsClean_example : Ensures IsClean (client_main (client (cmd_name get) (codes "a")))
client_main-IsClean_example = client_main-IsClean (client (cmd_name get) (codes "a"))

print_args_example : print_args [] (codes "7" ∷ replicate 2000 b'x' ∷ []) ≡ (
    if ltb (length (sentence (codes "7" ∷ replicate 2000 b'x' ∷ []))) message_size
    then ok (sentence (codes "7" ∷ replicate 2000 b'x' ∷ []))
    else fault)
print_args_example = print_args-sentence (codes "7" ∷ replicate 2000 b'x' ∷ [])

print_received_example :
    (length (codes "/x\n") < message_size
      → print_buf (received (codes "/x\n")) ≡ ok (cstr (codes "/x\n")))
    × (message_size ≤ length (codes "/x\n")
        → All (λ c. c ≢ 0) (codes "/x\n")
        → print_buf (received (codes "/x\n")) ≡ fault)
print_received_example = print-received (codes "/x\n")

get-Online :
    Online
      (client (cmd_name get) (codes "a"))
      os
      world
      buffer
      (print_nat 7)
      (cmd_name get ∷ codes "a" ∷ [])
unfolding cache_dir_of choose_path dest_path
get-Online = record {
  no_options = refl;
  given = refl;
  same_dir = refl;
  socket = refl;
  setsockopt = refl;
  bind = λ p. refl;
  listens = unfold daemon_path snprintf in refl;
  connect = refl;
  recv = λ m. refl;
}

abbrev asked : Turn
asked = record { os = os; pid = 7; request = find (codes "a") }

asked-CanServe : CanServe asked (view world)
unfolding words_of_request path_in list_get_node get_first compare_tag_tag strcmp bytes_eq
asked-CanServe = record {
  pid = omega arith;
  words = (printable-IsWord (codes "a") refl, tt);
  node_alloc = refl;
  data_alloc = refl;
  room = omega arith;
}

asked_reply : (serve_turn asked (view world)).1 ≡ some (codes "/x\n")
unfolding serve path_in list_get_node get_first compare_tag_tag compare_shell_pid int_eq strcmp
    bytes_eq
asked_reply = refl

client_serves_example :
    client_main (client (cmd_name get) (codes "a"))
    ≡ ok (
      exchanged (codes "/c") (print_nat 7) (message_of asked) (cstr (codes "/x\n")),
      exit_success,
    )
unfolding command_of words_of_request sentence print_nat cmd_name
client_serves_example =
    client_serves world world-IsWellFormed asked buffer (0 ∷ replicate 91 0 ++ behind)
      (codes "/x\n") (client (cmd_name get) (codes "a")) asked-CanServe asked_reply (omega arith)
      get-Online (omega arith) refl (unfold terminated has_blank in refl)

log_example :
    (log (pos 1) (pos 0) (codes "main") (codes "main.c") (codes "m") ≡ ok none)
    ⊎ ((l : LogLevel) × (pos 0 ≡ level_value l)
        × (lt_int (pos 0) (pos 1) ≡ false)
        × (log (pos 1) (pos 0) (codes "main") (codes "main.c") (codes "m")
            ≡ ok (some (log_line (level_name l) (codes "main") (codes "main.c") (codes "m")))))
log_example = log_lem (pos 1) (pos 0) (codes "main") (codes "main.c") (codes "m")
