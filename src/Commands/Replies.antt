-- ===== src/Commands/Replies.antt =====
-- src/daemon/commands.c: what the commands send, and to which shell. Some send the NUL behind "OK\n".
use nav.Base.{ℕ, Option, none, some, List, [], ◌∷◌, ◌++◌, Bytes, codes, ℤ}
use nav.Run.{Run, ok}
use nav.CString.{snprintf, print_int}
use nav.ItemList.{list_get_node, set_node}
use nav.Shell.{Shell, compare_shell_pid}
use nav.World.{World, Os, Datagram}

abbrev pub ok_reply : Bytes
ok_reply = codes "OK\n"

abbrev pub ok_nul_reply : Bytes
ok_nul_reply = codes "OK\n" ++ 0 ∷ []

abbrev pub bad_reply : Bytes
bad_reply = codes "BAD\n"

-- the size of `sun_path`
abbrev pub sun_path_size : ℕ
sun_path_size = 108

-- `"%s/%d.sock"` in `sun_path`
unfoldable pub socket_path : Bytes → ℤ → Bytes
socket_path cache_dir pid =
    snprintf sun_path_size (cache_dir ++ b'/' ∷ print_int pid ++ codes ".sock")

-- the datagram of a reply
abbrev pub reply_to : Bytes → Bytes → List Datagram
reply_to path payload = record { to = path; payload = payload } ∷ []

-- the arguments behind the command, if there are any: the memory from their first byte
abbrev pub Args : Type 0
Args = Option Bytes

abbrev pub Command : Type 0
Command = Os → World → ℤ → Args → Run World

abbrev pub get_shell : World → ℤ → Option Shell
get_shell w pid = list_get_node compare_shell_pid w.shells pid

-- writes through the pointer to a registered shell
unfoldable pub put_shell : World → Shell → World
put_shell w s = record w {
  state = record w.state { shells = set_node compare_shell_pid w.shells s.pid s };
}

-- Every command but `register` looks up its shell, and only logs if there is none.
abbrev pub if_registered : World → Option Shell → (Shell → Run World) → Run World
if_registered w none body = ok w
if_registered w (some s) body = body s

abbrev pub with_shell : World → ℤ → (Shell → Run World) → Run World
with_shell w pid body = if_registered w (get_shell w pid) body
