-- ===== src/Commands/Safety/Total.antt =====
-- When `dispatch_command` of src/daemon/commands.c returns.
use nav.Base.{Option, none, some, Bytes, ℤ}
use nav.Run.{Run, ok, fault, hang}
use nav.Run.Ensures.{Returns-Ensures, Returns}
use nav.World.{World, Os}
use nav.Commands.Replies.{Args}
use nav.Commands.Invariant.{IsWellFormed}
use nav.Commands.Registry.{cmd_register, cmd_unregister}
use nav.Commands.Registry.Keeps.{register-IsWellFormed, unregister-IsWellFormed}
use nav.Commands.Actions.{cmd_reset}
use nav.Commands.Actions.Keeps.{reset-IsWellFormed}
use nav.Commands.Dispatch.{
  CommandId, register, unregister, add, delete, show, get, push, pop, actions, list, reset,
  cmd_func, run_command, lookup_command, dispatch_command,
}
use nav.Commands.Dispatch.Keeps.{dispatch-IsWellFormed}
use nav.Commands.Safety.{Fits, SafeArgs, Done}
use nav.Commands.Safety.Handlers.{
  add-Done, delete-Done, get-Done, push-Done, pop-Done, list-Done, show-Done, actions-Done,
}

done : (r : Run World) → Returns IsWellFormed r → Done r
done (ok w) h = tt
done fault h = h
done hang h = h

module _ (os : Os) (w : World) (v : IsWellFormed w) (fits : Fits w) (pid : ℤ) where
  run_command-Done :
      (args : Args) (o : Option CommandId) → SafeArgs args o → Done (run_command os w pid args o)
  unfolding run_command cmd_func
  run_command-Done args none h = tt
  run_command-Done args (some register) h =
      done (cmd_register os w pid args) (register-IsWellFormed os w pid args v)
  run_command-Done args (some unregister) h =
      done (cmd_unregister os w pid args) (unregister-IsWellFormed os w pid args v)
  run_command-Done (some m) (some add) h = add-Done os w pid m h
  run_command-Done none (some add) h = absurd h
  run_command-Done (some m) (some delete) h = delete-Done os w pid m h
  run_command-Done none (some delete) h = absurd h
  run_command-Done (some m) (some get) h = get-Done os w pid m fits h
  run_command-Done none (some get) h = absurd h
  run_command-Done args (some show) h = show-Done os w pid args fits
  run_command-Done args (some push) h = push-Done os w pid args h
  run_command-Done args (some pop) h = pop-Done os w pid args fits
  run_command-Done args (some actions) h = actions-Done os w pid args fits
  run_command-Done args (some list) h = list-Done os w pid args fits
  run_command-Done args (some reset) h =
      done (cmd_reset os w pid args) (reset-IsWellFormed os w v pid args)

  -- In a well-formed state whose texts fit the buffers, every command returns, without a fault or an
  -- endless loop, and leaves a well-formed state, if `add`, `delete` and `get` have arguments and if
  -- arguments end with a NUL that has a newline right before it, or a newline or space somewhere behind it.
  pub dispatch-Returns :
      (cmd_str : Bytes) (args : Args)
      → SafeArgs args (lookup_command cmd_str)
      → Returns IsWellFormed (dispatch_command os w cmd_str pid args)
  dispatch-Returns cmd_str args h =
      Returns-Ensures IsWellFormed (dispatch_command os w cmd_str pid args)
        (unfold dispatch_command in run_command-Done args (lookup_command cmd_str) h)
        (dispatch-IsWellFormed os w v pid args cmd_str)
