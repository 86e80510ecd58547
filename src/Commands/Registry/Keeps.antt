-- ===== src/Commands/Registry/Keeps.antt =====
-- The invariant under `register` and `unregister` of src/daemon/commands.c.
use nav.Base.{
  ◌-◌, ◌≡◌, refl, ◌&&◌, Option, none, some, [], ◌∷◌, All-append, ℤ, Bool-cases, inl, inr,
}
use nav.Run.{ok}
use nav.Run.Ensures.{Returns}
use nav.ItemList.{list_append_node, list_delete_node}
use nav.ItemList.Lookup.{erase}
use nav.ItemList.Maps.{append-IsMap, erase-IsMap, delete-erase}
use nav.ItemList.Members.{All-erase}
use nav.Shell.{Shell, compare_shell_pid, cleanup_shell}
use nav.Shell.Stack.{shell_key, cleanup_shell-ends}
use nav.World.{World, Os}
use nav.Commands.Replies.{Args, get_shell}
use nav.Commands.Invariant.{
  IsShell, IsWellFormed, sendto-IsWellFormed, with_shell-cases, found-IsShell,
}
use nav.Commands.Registry.{cmd_register, register_from, cmd_unregister, new_shell, enrol}

new_shell-IsShell : (w : World) (pid : ℤ) → IsShell w.cache_dir (new_shell w pid)
unfolding new_shell
new_shell-IsShell w pid = record { addressed = refl; counted = refl; no_repeat = tt; words = tt }

enrol-IsWellFormed :
    (w : World) (s : Shell)
    → get_shell w s.pid ≡ none
    → IsShell w.cache_dir s
    → IsWellFormed w
    → IsWellFormed (enrol w s)
unfolding enrol
enrol-IsWellFormed w s new is v = sendto-IsWellFormed _ _ (record {
  shells = append-IsMap shell_key w.shells s new v.shells;
  members =
      unfold list_append_node in
      All-append (IsShell w.cache_dir) w.shells.items (s ∷ []) v.members (is, tt);
  tags = v.tags;
  entries = v.entries;
})

register_from-IsWellFormed :
    (os : Os) (w : World) (pid : ℤ) (o : Option Shell)
    → get_shell w pid ≡ o
    → IsWellFormed w
    → Returns IsWellFormed (register_from os w pid o)
unfolding register_from
register_from-IsWellFormed os w pid (some s) e v = sendto-IsWellFormed s.sun_path _ v
register_from-IsWellFormed os w pid none e v = elim (Bool-cases (os.node_alloc && os.data_alloc)) [
  | inl m ↦ rw (m, Returns) (enrol-IsWellFormed w (new_shell w pid) e (new_shell-IsShell w pid) v)
  | inr m ↦ rw (m, Returns) v
]

pub register-IsWellFormed :
    (os : Os) (w : World) (pid : ℤ) (args : Args)
    → IsWellFormed w
    → Returns IsWellFormed (cmd_register os w pid args)
unfolding cmd_register
register-IsWellFormed os w pid args v = register_from-IsWellFormed os w pid (get_shell w pid) refl v

-- the handler deletes the shell that it found, with status 0
pub unregister_body :
    (w : World) (pid : ℤ) (s : Shell)
    → get_shell w pid ≡ some s
    → IsWellFormed w
    → list_delete_node compare_shell_pid cleanup_shell w.shells pid
      ≡ ok
          (0, record { items = erase shell_key pid w.shells.items; n_items = w.shells.n_items - 1 })
unregister_body w pid s e v =
    delete-erase shell_key cleanup_shell pid w.shells s e
      (cleanup_shell-ends s (found-IsShell w pid e v).counted)

pub unregister-IsWellFormed :
    (os : Os) (w : World) (pid : ℤ) (args : Args)
    → IsWellFormed w
    → Returns IsWellFormed (cmd_unregister os w pid args)
unfolding cmd_unregister
unregister-IsWellFormed os w pid args v = with_shell-cases (Returns IsWellFormed) w pid _ v λ s e.
    rw (unregister_body w pid s e v) (
      sendto-IsWellFormed _ _ (record {
        shells = erase-IsMap shell_key w.shells pid s e v.shells;
        members = All-erase shell_key (IsShell w.cache_dir) pid w.shells.items v.members;
        tags = v.tags;
        entries = v.entries;
      }))
