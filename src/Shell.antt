-- ===== src/Shell.antt =====
-- src/daemon/shell.h, shell.c: registered shells and their action stacks.
pub mod Stack
use nav.Base.{ℕ, zero, suc, true, false, List, [], ◌∷◌, Bytes, ◌==◌, ltb, if◌then◌else◌, ℤ, int_eq}
use nav.Run.{Run, ok, fault, hang, ◌>>=◌}
use nav.CString.{strcmp}
use nav.ItemList.{ItemList, list_delete_node}

pub record Action : Type 0 where
  pub path : Bytes

-- `sun_path` is the path in `sock_addr`
pub record Shell : Type 0 where
  pub pid : ℤ
  pub sun_path : Bytes
  pub actions : ItemList Action

unfoldable pub compare_shell_pid : Shell → ℤ → ℕ
compare_shell_pid s pid = if int_eq s.pid pid then 0 else 1

unfoldable pub compare_action_path : Action → Bytes → ℕ
compare_action_path a path = if strcmp a.path path == 0 then 0 else 1

unfoldable pub cleanup_action : Action → Run (Unit {0})
cleanup_action a = ok tt

-- `s->actions.head->data`, a null dereference if the list is empty
head_action : List Action → Run Action
head_action [] = fault
head_action (a ∷ rest) = ok a

-- `while (s->actions.n_items > 0)`; each round that makes progress takes one from the counter
cleanup_loop : ℕ → ItemList Action → Run (Unit {0})
unfolding head_action
cleanup_loop zero l = if ltb 0 l.n_items then hang else ok tt
cleanup_loop (suc f) l =
    let round : Run (Unit {0}) = (do
      a ← head_action l.items
      r ← list_delete_node compare_action_path cleanup_action l a.path
      cleanup_loop f r.1) in
    if ltb 0 l.n_items then round else ok tt

unfoldable pub cleanup_shell : Shell → Run (Unit {0})
unfolding cleanup_loop
cleanup_shell s = cleanup_loop s.actions.n_items s.actions
