-- ===== src/Commands/Isolation/Registry.antt =====
-- `register` and `unregister` of src/daemon/commands.c, and the other shells.
use nav.Base.{◌≡◌, refl, sym, ◌∙◌, ◌&&◌, Option, none, some, ℤ, Bool-cases, inl, inr}
use nav.Run.Ensures.{Ensures}
use nav.ItemList.{list_append_node, list_get_node}
use nav.ItemList.Lookup.{get-append_ne, get-erase_ne}
use nav.Shell.{Shell}
use nav.Shell.Stack.{shell_key}
use nav.World.{World, Os}
use nav.Commands.Replies.{Args, get_shell}
use nav.Commands.Invariant.{IsWellFormed, with_shell-cases}
use nav.Commands.Registry.{cmd_register, cmd_unregister, register_from, new_shell, enrol, leave}
use nav.Commands.Registry.Keeps.{unregister_body}
use nav.Commands.Isolation.{IsQuiet, IsLocal, IsQuiet-refl, IsQuiet-IsLocal, reply-IsLocal}
use nav.Commands.Isolation.Answer.{addr, Local, unchanged, answer}

module _ (os : Os) (w : World) (v : IsWellFormed w) (pid : ℤ) where
  register_from-IsLocal :
      (o : Option Shell)
      → get_shell w pid ≡ o
      → Ensures (IsLocal os w pid) (register_from os w pid o)
  unfolding register_from new_shell enrol
  register_from-IsLocal (some s) e = answer os w v pid s _ e
  register_from-IsLocal none e = elim (Bool-cases (os.node_alloc && os.data_alloc)) [
    | inr m ↦ rw (m, Ensures) (IsQuiet-IsLocal IsQuiet-refl)
    | inl m ↦ rw (m, Ensures) (reply-IsLocal _ _ refl (enrol-IsQuiet (new_shell w pid) refl))
  ]
    where
      enrol-IsQuiet :
          (s : Shell)
          → s.pid ≡ pid
          → IsQuiet os w pid
              (record w { state = record w.state { shells = list_append_node w.shells s } })
      enrol-IsQuiet s same = record {
        others = λ q ne.
            unfold list_append_node list_get_node in
            get-append_ne shell_key q s w.shells.items (λ eq. ne (sym eq ∙ same));
        same_dir = refl;
        same_paths = (refl, refl);
        durable = inl (refl, refl);
        silent = refl;
      }

  pub register-IsLocal : (args : Args) → Ensures (IsLocal os w pid) (cmd_register os w pid args)
  unfolding cmd_register
  register-IsLocal args = register_from-IsLocal (get_shell w pid) refl

  pub unregister-IsLocal : (args : Args) → Ensures (IsLocal os w pid) (cmd_unregister os w pid args)
  unfolding cmd_unregister leave
  unregister-IsLocal args =
      with_shell-cases (Local os w v pid) w pid _ (unchanged os w v pid) λ s e.
        rw (unregister_body w pid s e v) (
          reply-IsLocal s.sun_path _ (addr w pid s e v) (record {
            others = λ q ne.
                unfold list_get_node in
                get-erase_ne shell_key pid q w.shells.items (λ eq. ne (sym eq));
            same_dir = refl;
            same_paths = (refl, refl);
            durable = inl (refl, refl);
            silent = refl;
          }))
