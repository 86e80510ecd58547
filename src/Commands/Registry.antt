-- ===== src/Commands/Registry.antt =====
-- src/daemon/commands.c: `register` and `unregister`.
pub mod Keeps
pub mod Session
use nav.Base.{ℕ, zero, suc, Bool, ◌&&◌, Option, none, some, Bytes, ℤ, if◌then◌else◌}
use nav.Run.{Run, ok, fault, hang, ◌>>=◌}
use nav.ItemList.{ItemList, empty, list_append_node, list_delete_node}
use nav.Shell.{Shell, compare_shell_pid, cleanup_shell}
use nav.World.{World, Os, sendto}
use nav.Commands.Replies.{Args, ok_reply, ok_nul_reply, socket_path, get_shell, with_shell}

unfoldable pub new_shell : World → ℤ → Shell
new_shell w pid = record { pid = pid; sun_path = socket_path w.cache_dir pid; actions = empty }

-- the shell appended, and its reply sent
unfoldable pub enrol : World → Shell → World
enrol w s =
    sendto (record w { state = record w.state { shells = list_append_node w.shells s } }) s.sun_path
      ok_nul_reply

-- the rest of `register`, after the lookup
unfoldable pub register_from : Os → World → ℤ → Option Shell → Run World
unfolding new_shell enrol
register_from os w pid (some s) = ok (sendto w s.sun_path ok_nul_reply)
register_from os w pid none =
    if os.node_alloc && os.data_alloc then ok (enrol w (new_shell w pid)) else ok w

unfoldable pub cmd_register : Os → World → ℤ → Args → Run World
unfolding register_from
cmd_register os w pid args = register_from os w pid (get_shell w pid)

-- `r` is the result of `list_delete_node`
unfoldable pub leave : World → Bytes → ℕ × ItemList Shell → World
leave w addr (zero, shells) =
    sendto (record w { state = record w.state { shells = shells } }) addr ok_reply
leave w addr (suc r, shells) = record w { state = record w.state { shells = shells } }

unfoldable pub cmd_unregister : Os → World → ℤ → Args → Run World
unfolding leave
cmd_unregister os w pid args = with_shell w pid (λ s. do
  r ← list_delete_node compare_shell_pid cleanup_shell w.shells pid
  ok (leave w s.sun_path r))
