-- ===== src/Tests/Sessions.antt =====
-- Sessions of the daemon on the disk of `Files`: it starts, takes messages, stops, and starts again.
use nav.TagFile.Entry.{IsTagName}
use nav.Tag.{compare_tag_tag}
use nav.CString.{strcmp, print_int, snprintf}
use nav.Commands.Replies.{socket_path}
use nav.ItemList.Maps.{empty-IsMap}
use nav.Shell.Stack.{shell_key}
use nav.Utils.{is_blank}
use nav.Utils.Words.{IsWord}
use nav.Base.{
  ℕ, All, ◌≤◌, ◌≢◌, ◌+◌, arith, length, ◌++◌, int_eq, ◌≡◌, refl, ap, ◌∙◌, true, false, none, some,
  List, [], ◌∷◌, Bytes, bytes_eq, bytes_eq_refl, codes, pos, replicate, if◌then◌else◌,
}
use nav.Run.{ok}
use nav.CString.{print_nat, strncmp}
use nav.Utils.{is_blank, valid_path}
use nav.Utils.Words.{has_blank}
use nav.ItemList.{list_append_node, get_first, list_get_node}
use nav.Tag.{write_tag_file, tag_lines}
use nav.TagFile.RoundTrip.{IsWritable}
use nav.World.{World, sendto}
use nav.Commands.Invariant.{IsWellFormed}
use nav.Commands.Tags.{pair, add_args, put_tags, save_tags, set_tag, added, add_tag, cmd_add}
use nav.Commands.Tags.Parse.{add_args-spell, words_of}
use nav.Commands.Replies.{socket_path, get_shell, ok_reply}
use nav.Shell.{compare_shell_pid}
use nav.Loop.Saved.{IsSaved}
use nav.Commands.Registry.{cmd_register, register_from, new_shell, enrol}
use nav.Commands.Dispatch.{cmd_func, lookup_command, run_command, dispatch_command}
use nav.Commands.Tags.Parse.{spell}
use nav.Loop.{round}
use nav.Loop.Message.{sentence, then_go_on, round-dispatch}
use nav.Loop.Reach.{start, next}
use nav.Lifecycle.{live, freed, handler}
use nav.Setup.{FileSystem, running, choose_path, dest_path, main, shutdown}
use nav.Setup.Restart.{Ready, restarted_world, main_restarts}
use nav.Setup.Session.{session_stops, session_survives}
use nav.Tests.Files.{
  disk, files, answers, answer_of, has_path, a-IsWritable, b-IsWritable, is-Ready, kept,
}
use nav.Server.{join, bind, serve, command_of, words_of_request}
use nav.Server.View.{view}
use nav.Server.Rounds.{Turn}
use nav.Server.Replay.{received, replay, CanReplay, SizesFit}
use nav.Server.Restart.{restarted, replay-survives}
use nav.CString.{cut_then, cut_token, strtok_r, skip_delims, token_at, scan_token, strndup}
use nav.Utils.{get_trailing_whitespace, dup_word}
use nav.Commands.Tags.{first_token, second_token, last_token}
use nav.Commands.Dispatch.{cmd_name}
use nav.Loop.{
  recv, parse_line, parse_pid, parse_command, dispatch_args, strtol, skip_space, signed_value,
  digits_value, to_int,
}
use nav.Loop.Buffer.{
  loop, rounds, left, cut_line, cut_pid, cut_command, cut_args, command_calls, handler_calls,
}
use nav.Tests.Data.{behind_blank, behind, os, world, world-IsWellFormed, printable-IsWord}

abbrev pub at_loop : World
at_loop = restarted_world disk answers files (codes "u") (codes "/f") (codes "/c") 3 world.tags

pub begins : main disk answers files ≡ ok (running at_loop, files)
begins =
    main_restarts disk answers files world.tags none world-IsWellFormed.tags is-Ready
      (a-IsWritable, (b-IsWritable, tt)) kept

-- `12 register ` makes a shell
abbrev registered : World
registered = enrol at_loop (new_shell at_loop (pos 12))

after_register : dispatch_command os at_loop (codes "register") (pos 12) none ≡ ok registered
unfolding dispatch_command run_command cmd_func lookup_command strncmp cmd_register register_from
    list_get_node get_first
after_register = refl

register_step :
    round os at_loop (replicate 100 0) (sentence (codes "12" ∷ codes "register" ∷ []))
    ≡ ok (true, registered)
unfolding print_nat sentence spell
register_step =
    round-dispatch os at_loop 12 (codes "register") [] [] (replicate 100 0) (replicate 87 0)
      (omega arith) (printable-IsWord (codes "register") refl) tt tt (omega arith) refl
    ∙ ap then_go_on after_register

session_stops_example :
    IsWellFormed registered
    × (handler (live registered.state) ≡ ok (some (codes "/c/nav.sock"), freed))
    × (shutdown disk files registered.state ≡ ok (files, freed))
session_stops_example =
    session_stops disk answers files files at_loop registered begins
      (next os (replicate 100 0) (sentence (codes "12" ∷ codes "register" ∷ [])) start
        register_step)
      files

-- then `12 add c /z ` adds a tag and writes the file
abbrev with_c : World
with_c =
    sendto
      (save_tags os (
        put_tags registered
          (list_append_node registered.tags (record { tag = codes "c"; path = codes "/z" }))))
      (codes "/c/12.sock") ok_reply

abbrev add_buffer : Bytes
add_buffer = replicate 100 0 ++ behind

registered_shell : get_shell registered (pos 12) ≡ some (new_shell at_loop (pos 12))
unfolding enrol new_shell list_append_node list_get_node get_first compare_shell_pid int_eq sendto
registered_shell = refl

c_args :
    add_args (some (spell (codes "c" ∷ codes "/z" ∷ []) (replicate 87 0 ++ behind)))
    ≡ ok (pair (codes "c") (codes "/z"))
unfolding words_of
c_args =
    add_args-spell (codes "c" ∷ codes "/z" ∷ []) (replicate 87 0 ++ behind)
      (printable-IsWord (codes "c") refl, (printable-IsWord (codes "/z") refl, tt))
      (unfold has_blank in refl)

after_add :
    dispatch_command os registered
      (codes "add")
      (pos 12)
      (some (spell (codes "c" ∷ codes "/z" ∷ []) (replicate 87 0 ++ behind)))
    ≡ ok with_c
unfolding dispatch_command run_command cmd_func lookup_command strncmp cmd_add add_tag set_tag added
    sendto valid_path list_get_node enrol compare_tag_tag strcmp bytes_eq new_shell socket_path
    snprintf print_int
after_add = rw (registered_shell, c_args) refl

add_step :
    round os registered add_buffer
      (sentence (codes "12" ∷ codes "add" ∷ codes "c" ∷ codes "/z" ∷ []))
    ≡ ok (true, with_c)
unfolding print_nat sentence spell
add_step =
    round-dispatch os registered 12 (codes "add") (codes "c" ∷ codes "/z" ∷ []) [] add_buffer
      (replicate 87 0 ++ behind) (omega arith) (printable-IsWord (codes "add") refl)
      (printable-IsWord (codes "c") refl, (printable-IsWord (codes "/z") refl, tt)) tt (omega arith)
      refl
    ∙ ap then_go_on after_add

at_loop-IsWellFormed : IsWellFormed at_loop
at_loop-IsWellFormed = record {
  shells = empty-IsMap shell_key;
  members = tt;
  tags = world-IsWellFormed.tags;
  entries = world-IsWellFormed.entries;
}

at_loop-IsSaved : IsSaved at_loop
unfolding write_tag_file tag_lines bytes_eq
at_loop-IsSaved = refl

-- the disk as it is then, with `/z`
abbrev later_disk : FileSystem
later_disk = record {
  Files = List Bytes;
  fstatat = λ files p. answer_of (has_path p files);
  mkdir = λ files p. (true, p ∷ files);
  unlink = λ files p. files;
  content =
      λ files p. if bytes_eq p (codes "/f/tags") then some (codes "a=/x\nb=/y\nc=/z\n\n") else none;
  mkdir_found = λ files p made. rw (bytes_eq_refl p) refl;
}

abbrev later_files : List Bytes
later_files = codes "/z" ∷ files

later-Ready : Ready later_disk answers later_files (codes "u") (codes "/f") (codes "/c") 3
unfolding choose_path dest_path bytes_eq
later-Ready = record {
  no_options = refl;
  allocated = refl;
  reads = λ n. refl;
  named = refl;
  config_given = refl;
  config_there = refl;
  cache_given = refl;
  cache_there = refl;
  socket = refl;
  bound = refl;
}

later_content : later_disk.content later_files (codes "/f/tags") ≡ with_c.tagfile
unfolding write_tag_file tag_lines bytes_eq save_tags sendto list_append_node enrol
later_content = refl

later-IsWritable :
    (tag path : Bytes)
    → IsTagName tag
    → IsWord path
    → length tag + length path ≤ 253
    → valid_path (later_disk.fstatat later_files path) ≡ true
    → IsWritable (later_disk.fstatat later_files) (record { tag = tag; path = path })
later-IsWritable tag path n w s t = record { name = n; target = w; short = s; there = t }

name_of : (c : ℕ) → c ≢ 0 → is_blank c ≡ false → c ≢ b'=' → IsTagName (c ∷ [])
name_of c z b e = ((z, b, e), tt)

later_tags : All (IsWritable (later_disk.fstatat later_files)) with_c.tags.items
unfolding valid_path bytes_eq sendto save_tags list_append_node enrol
later_tags = (
  later-IsWritable (codes "a") (codes "/x") (name_of _ (omega arith) refl (omega arith))
      (printable-IsWord (codes "/x") refl) (omega arith) refl,
  (
    later-IsWritable (codes "b") (codes "/y") (name_of _ (omega arith) refl (omega arith))
        (printable-IsWord (codes "/y") refl) (omega arith) refl,
    (
      later-IsWritable (codes "c") (codes "/z") (name_of _ (omega arith) refl (omega arith))
          (printable-IsWord (codes "/z") refl) (omega arith) refl,
      tt,
    ),
  ),
)

-- the daemon starts with `a` and `b`, takes a shell and `c`, and starts again
session_survives_example :
    main later_disk answers later_files
    ≡ ok (
      running (
          restarted_world later_disk answers later_files
            (codes "u")
            (codes "/f")
            (codes "/c")
            3
            with_c.tags),
      later_files,
    )
session_survives_example =
    session_survives later_disk answers later_files at_loop with_c (codes "u") (codes "/f")
      (codes "/c") 3
      (next os add_buffer (sentence (codes "12" ∷ codes "add" ∷ codes "c" ∷ codes "/z" ∷ []))
        (next os (replicate 100 0) (sentence (codes "12" ∷ codes "register" ∷ [])) start
          register_step)
        add_step)
      (refl, (refl, tt)) at_loop-IsWellFormed at_loop-IsSaved later-Ready later_content later_tags

-- the same requests in the loop, over its own buffer
abbrev joined_and_bound : List Turn
joined_and_bound =
    record { os = os; pid = 12; request = join }
    ∷ record { os = os; pid = 12; request = bind (codes "c") (codes "/z") }
    ∷ []

requests-CanReplay : CanReplay joined_and_bound (view at_loop)
unfolding serve words_of_request
requests-CanReplay = (
  record { pid = omega arith; words = tt; node_alloc = refl; data_alloc = refl; room = tt },
  (
    record {
      pid = omega arith;
      words = (printable-IsWord (codes "c") refl, (printable-IsWord (codes "/z") refl, tt));
      node_alloc = refl;
      data_alloc = refl;
      room = tt;
    },
    tt,
  ),
)

requests-SizesFit : SizesFit 0 joined_and_bound
unfolding sentence print_nat cmd_name command_of words_of_request
requests-SizesFit = (omega arith, tt, (omega arith, omega arith, tt))

requests_run : loop behind (received joined_and_bound) at_loop ≡ ok (true, with_c)
unfolding sentence print_nat cmd_name command_of words_of_request loop rounds left cut_line cut_pid
    cut_command cut_args command_calls handler_calls cut_then cut_token round recv parse_line
    parse_pid parse_command dispatch_args strtol skip_space signed_value digits_value to_int
    lookup_command dispatch_command run_command cmd_func strncmp cmd_add add_args first_token
    second_token last_token add_tag set_tag added save_tags sendto compare_shell_pid compare_tag_tag
    get_first list_get_node list_append_node get_trailing_whitespace dup_word valid_path strcmp
    strtok_r skip_delims token_at scan_token strndup int_eq bytes_eq cmd_register register_from
    new_shell enrol socket_path snprintf print_int
requests_run = refl

replay-survives_example :
    (w : World) × (main later_disk answers later_files ≡ ok (running w, later_files))
    × (view w ≡ restarted (replay joined_and_bound (view at_loop)))
replay-survives_example =
    replay-survives behind joined_and_bound at_loop with_c later_disk answers later_files
      (codes "u") (codes "/f") (codes "/c") 3 behind_blank at_loop-IsWellFormed at_loop-IsSaved
      requests-CanReplay requests-SizesFit (refl, (refl, tt)) requests_run later-Ready later_content
      later_tags
