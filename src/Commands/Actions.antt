-- ===== src/Commands/Actions.antt =====
-- src/daemon/commands.c: `push`, `pop`, `actions` and `reset`, on the action stack of a shell.
pub mod Keeps
pub mod Listing
pub mod PushPop
use nav.Base.{
  ℕ, suc, ◌+◌, Bool, true, false, ◌&&◌, Option, none, some, List, [], ◌∷◌, ◌++◌, Bytes, codes, ℤ,
  ◌==◌, if◌then◌else◌,
}
use nav.Run.{Run, ok, fault, hang, ◌>>=◌}
use nav.CString.{strcmp, sprintf, print_nat}
use nav.Utils.{dup_word, valid_path}
use nav.ItemList.{ItemList, list_prepend_node, list_delete_node, list_delete_all}
use nav.Shell.{Shell, Action, compare_action_path, cleanup_action}
use nav.World.{World, Os, sendto}
use nav.Commands.Replies.{Args, ok_nul_reply, bad_reply, put_shell, with_shell}

-- the head of the stack has this path
unfoldable pub is_head : List Action → Bytes → Bool
is_head [] path = false
is_head (a ∷ rest) path = strcmp a.path path == 0

abbrev pub put_actions : World → Shell → ItemList Action → World
put_actions w s as' = put_shell w (record s { actions = as' })

unfoldable pub push_action : Os → World → Shell → Bytes → World
unfolding is_head
push_action os w s action =
    if valid_path (os.fstatat action)
    then if is_head s.actions.items action
      then sendto w s.sun_path ok_nul_reply
      else if os.node_alloc && os.data_alloc
      then sendto (put_actions w s (list_prepend_node s.actions (record { path = action })))
          s.sun_path ok_nul_reply
      else sendto w s.sun_path bad_reply
    else sendto w s.sun_path bad_reply

unfoldable pub push_arg : Os → World → Shell → Args → Run World
unfolding push_action
push_arg os w s none = ok w
push_arg os w s (some p) = do action ← dup_word p; ok (push_action os w s action)

unfoldable pub cmd_push : Os → World → ℤ → Args → Run World
unfolding push_arg
cmd_push os w pid args = with_shell w pid (λ s. push_arg os w s args)

abbrev pub pop_size : ℕ
pop_size = 100

abbrev pub actions_size : ℕ
actions_size = 1024

unfoldable pub pop_action : World → Shell → List Action → Run World
pop_action w s [] = ok (sendto w s.sun_path bad_reply)
pop_action w s (a ∷ rest) = do
  buf ← sprintf pop_size [] (a.path ++ b'\n' ∷ [])
  r ← list_delete_node compare_action_path cleanup_action s.actions a.path
  ok (put_actions (sendto w s.sun_path buf) s r.1)

unfoldable pub cmd_pop : Os → World → ℤ → Args → Run World
unfolding pop_action
cmd_pop os w pid args = with_shell w pid (λ s. pop_action w s s.actions.items)

-- `"    %d. %s\n"`
abbrev pub action_line : ℕ → Action → Bytes
action_line i a = codes "    " ++ print_nat i ++ codes ". " ++ a.path ++ b'\n' ∷ []

pub actions_loop : List Action → ℕ → Bytes → Run Bytes
actions_loop [] i out = ok out
actions_loop (a ∷ rest) i out = do
  out' ← sprintf actions_size out (action_line i a)
  actions_loop rest (i + 1) out'

unfoldable pub cmd_actions : Os → World → ℤ → Args → Run World
unfolding actions_loop
cmd_actions os w pid args =
    with_shell w pid (λ s. do buf ← actions_loop s.actions.items 1 []; ok (sendto w s.sun_path buf))

unfoldable pub cmd_reset : Os → World → ℤ → Args → Run World
cmd_reset os w pid args = with_shell w pid (λ s. do
  as' ← list_delete_all cleanup_action s.actions
  ok (sendto (put_actions w s as') s.sun_path ok_nul_reply))
