-- ===== src/Commands/Safety/MissingArgs.antt =====
-- Commands without arguments, and commands of shells that have not registered.
use nav.Base.{◌≡◌, refl, ◌≢◌, none, some, ℤ}
use nav.Run.{ok, fault}
use nav.CString.{strtok_r}
use nav.Shell.{Shell}
use nav.World.{World, Os}
use nav.Commands.Replies.{Args, get_shell}
use nav.Commands.Registry.{cmd_unregister}
use nav.Commands.Tags.{cmd_add, cmd_delete, cmd_get, cmd_show, cmd_list, add_args, tag_arg}
use nav.Commands.Actions.{cmd_push, cmd_pop, cmd_actions, cmd_reset}
use nav.Commands.Dispatch.{CommandId, register, add, delete, get, cmd_func}

-- the commands that read words from their arguments with no test for a null pointer
abbrev pub ReadsWords : CommandId → Type 0
ReadsWords add = Unit
ReadsWords delete = Unit
ReadsWords get = Unit
ReadsWords _ = ⊥

module _ (os : Os) (w : World) (pid : ℤ) where
  -- `add`, `delete` and `get` without arguments dereference a null pointer, whenever the shell is
  -- registered.
  pub no_args-fault :
      (c : CommandId) (s : Shell)
      → ReadsWords c
      → get_shell w pid ≡ some s
      → cmd_func c os w pid none ≡ fault
  unfolding cmd_func cmd_add cmd_delete cmd_get add_args tag_arg strtok_r
  no_args-fault add s h e = rw e
  no_args-fault delete s h e = rw e
  no_args-fault get s h e = rw e
  no_args-fault _ s h e = absurd h

  -- A process id that is not registered can only register: every other command does nothing.
  pub unregistered_ignored :
      (c : CommandId) (args : Args)
      → c ≢ register
      → get_shell w pid ≡ none
      → cmd_func c os w pid args ≡ ok w
  unfolding cmd_func cmd_unregister cmd_add cmd_delete cmd_get cmd_show cmd_list cmd_push cmd_pop
      cmd_actions cmd_reset
  unregistered_ignored register args ne e = absurd (ne refl)
  unregistered_ignored _ args ne e = rw e
