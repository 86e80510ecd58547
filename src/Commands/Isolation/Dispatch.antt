-- ===== src/Commands/Isolation/Dispatch.antt =====
-- `dispatch_command` of src/daemon/commands.c, and the other shells.
use nav.Base.{Option, none, some, Bytes, ℤ}
use nav.Run.Ensures.{Ensures}
use nav.World.{World, Os}
use nav.Commands.Replies.{Args}
use nav.Commands.Invariant.{IsWellFormed}
use nav.Commands.Dispatch.{
  CommandId, register, unregister, add, delete, show, get, push, pop, actions, list, reset,
  cmd_func, run_command, lookup_command, dispatch_command,
}
use nav.Commands.Isolation.{IsLocal}
use nav.Commands.Isolation.Answer.{unchanged}
use nav.Commands.Isolation.Registry.{register-IsLocal, unregister-IsLocal}
use nav.Commands.Isolation.Tags.{
  add-IsLocal, delete-IsLocal, get-IsLocal, show-IsLocal, list-IsLocal,
}
use nav.Commands.Isolation.Actions.{push-IsLocal, pop-IsLocal, actions-IsLocal, reset-IsLocal}

module _ (os : Os) (w : World) (v : IsWellFormed w) (pid : ℤ) (args : Args) where
  run_command-IsLocal :
      (o : Option CommandId) → Ensures (IsLocal os w pid) (run_command os w pid args o)
  unfolding run_command cmd_func
  run_command-IsLocal none = unchanged os w v pid
  run_command-IsLocal (some register) = register-IsLocal os w v pid args
  run_command-IsLocal (some unregister) = unregister-IsLocal os w v pid args
  run_command-IsLocal (some add) = add-IsLocal os w v pid args
  run_command-IsLocal (some delete) = delete-IsLocal os w v pid args
  run_command-IsLocal (some show) = show-IsLocal os w v pid args
  run_command-IsLocal (some get) = get-IsLocal os w v pid args
  run_command-IsLocal (some push) = push-IsLocal os w v pid args
  run_command-IsLocal (some pop) = pop-IsLocal os w v pid args
  run_command-IsLocal (some actions) = actions-IsLocal os w v pid args
  run_command-IsLocal (some list) = list-IsLocal os w v pid args
  run_command-IsLocal (some reset) = reset-IsLocal os w v pid args

  -- From a well-formed state, a command that returns has left every other shell, the cache directory and
  -- the paths of the daemon's files as they were, and has sent at most one datagram, to the socket of the
  -- process id that it came with; it has left the tags and the tag file, or has written all tags to the
  -- file, if that can be opened; no command loops for ever.
  pub dispatch-IsLocal :
      (cmd_str : Bytes) → Ensures (IsLocal os w pid) (dispatch_command os w cmd_str pid args)
  unfolding dispatch_command
  dispatch-IsLocal cmd_str = run_command-IsLocal (lookup_command cmd_str)
