-- ===== src/Commands/Dispatch/Keeps.antt =====
-- The invariant of the daemon's state under `dispatch_command` of src/daemon/commands.c.
use nav.Base.{Option, none, some, Bytes, ℤ}
use nav.Run.{Run, ok, fault, hang}
use nav.Run.Ensures.{Ensures, Returns}
use nav.World.{World, Os}
use nav.Commands.Replies.{Args}
use nav.Commands.Invariant.{IsWellFormed}
use nav.Commands.Registry.{cmd_register, cmd_unregister}
use nav.Commands.Actions.{cmd_reset}
use nav.Commands.Registry.Keeps.{register-IsWellFormed, unregister-IsWellFormed}
use nav.Commands.Tags.Keeps.{
  add-IsWellFormed, delete-IsWellFormed, show-IsWellFormed, get-IsWellFormed, list-IsWellFormed,
}
use nav.Commands.Actions.Keeps.{
  push-IsWellFormed, pop-IsWellFormed, actions-IsWellFormed, reset-IsWellFormed,
}
use nav.Commands.Dispatch.{
  CommandId, register, unregister, add, delete, show, get, push, pop, actions, list, reset,
  cmd_func, run_command, lookup_command, dispatch_command,
}

ensures : (r : Run World) → Returns IsWellFormed r → Ensures IsWellFormed r
ensures (ok w) h = h
ensures fault h = absurd h
ensures hang h = absurd h

module _ (os : Os) (w : World) (v : IsWellFormed w) (pid : ℤ) (args : Args) where
  cmd_func-IsWellFormed : (c : CommandId) → Ensures IsWellFormed (cmd_func c os w pid args)
  unfolding cmd_func
  cmd_func-IsWellFormed register =
      ensures (cmd_register os w pid args) (register-IsWellFormed os w pid args v)
  cmd_func-IsWellFormed unregister =
      ensures (cmd_unregister os w pid args) (unregister-IsWellFormed os w pid args v)
  cmd_func-IsWellFormed add = add-IsWellFormed os w v pid args
  cmd_func-IsWellFormed delete = delete-IsWellFormed os w v pid args
  cmd_func-IsWellFormed show = show-IsWellFormed os w v pid args
  cmd_func-IsWellFormed get = get-IsWellFormed os w v pid args
  cmd_func-IsWellFormed push = push-IsWellFormed os w v pid args
  cmd_func-IsWellFormed pop = pop-IsWellFormed os w v pid args
  cmd_func-IsWellFormed actions = actions-IsWellFormed os w v pid args
  cmd_func-IsWellFormed list = list-IsWellFormed os w v pid args
  cmd_func-IsWellFormed reset =
      ensures (cmd_reset os w pid args) (reset-IsWellFormed os w v pid args)

  run_command-IsWellFormed :
      (o : Option CommandId) → Ensures IsWellFormed (run_command os w pid args o)
  unfolding run_command
  run_command-IsWellFormed none = v
  run_command-IsWellFormed (some c) = cmd_func-IsWellFormed c

  -- From a well-formed state no command loops for ever, whatever its arguments, and if it returns, it
  -- leaves a well-formed state.
  pub dispatch-IsWellFormed : (s : Bytes) → Ensures IsWellFormed (dispatch_command os w s pid args)
  unfolding dispatch_command
  dispatch-IsWellFormed s = run_command-IsWellFormed (lookup_command s)
