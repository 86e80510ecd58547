-- ===== src/Tests/Stale.antt =====
-- Two messages in the receive buffer, one after the other.
use nav.Base.{◌≡◌, refl, some, [], ◌∷◌, codes, int_eq, bytes_eq}
use nav.CString.{
  cut_then, cut_token, strcmp, strncmp, strtok_r, skip_delims, token_at, scan_token, strndup,
}
use nav.Utils.{get_trailing_whitespace, dup_word, valid_path}
use nav.ItemList.{get_first, list_get_node, list_append_node, set_node, set_first}
use nav.Tag.{compare_tag_tag}
use nav.Shell.{compare_shell_pid}
use nav.World.{sendto}
use nav.Run.{fault}
use nav.Run.Ensures.{Returns}
use nav.Commands.Tags.Map.{path_in}
use nav.Commands.Registry.{cmd_register, register_from, new_shell, enrol}
use nav.Commands.Tags.{
  cmd_get, tag_arg, cmd_add, add_args, first_token, second_token, last_token, add_tag, set_tag,
  added, save_tags,
}
use nav.Commands.Dispatch.{lookup_command, dispatch_command, run_command, cmd_func}
use nav.Loop.{
  round, recv, parse_line, parse_pid, parse_command, dispatch_args, strtol, skip_space,
  signed_value, digits_value, to_int,
}
use nav.Loop.Buffer.{
  rounds, loop, left, cut_line, cut_pid, cut_command, cut_args, command_calls, handler_calls,
}
use nav.Tests.Data.{os, world, behind}

-- after `7 add b /y `, `7 add c ` binds `c` to the path that the buffer still holds
stale_path :
    Returns
      (λ r. path_in r.1.tags (codes "c") ≡ some (codes "/y"))
      (loop behind ((os, codes "7 add b /y ") ∷ (os, codes "7 add c ") ∷ []) world)
unfolding loop rounds left cut_line cut_pid cut_command cut_args command_calls handler_calls
    cut_then cut_token round recv parse_line parse_pid parse_command dispatch_args strtol skip_space
    signed_value digits_value to_int lookup_command dispatch_command run_command cmd_func strncmp
    cmd_add add_args first_token second_token last_token add_tag set_tag added save_tags path_in
    sendto compare_shell_pid compare_tag_tag get_first list_get_node list_append_node set_node
    set_first get_trailing_whitespace dup_word valid_path strcmp strtok_r skip_delims token_at
    scan_token strndup int_eq bytes_eq
stale_path = refl

-- The first messages of a shell, `9 register ` and `9 get a `: the scan of `a` leaves the buffer, with
-- nothing behind it that can be read.
first_get-leaves : loop [] ((os, codes "9 register ") ∷ (os, codes "9 get a ") ∷ []) world ≡ fault
unfolding loop rounds left cut_line cut_pid cut_command cut_args command_calls handler_calls
    cut_then cut_token round recv parse_line parse_pid parse_command dispatch_args strtol skip_space
    signed_value digits_value to_int lookup_command dispatch_command run_command cmd_func strncmp
    cmd_register register_from new_shell enrol cmd_get tag_arg sendto compare_shell_pid get_first
    list_get_node list_append_node get_trailing_whitespace dup_word strtok_r skip_delims token_at
    scan_token strndup int_eq
first_get-leaves = refl
