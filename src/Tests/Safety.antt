-- ===== src/Tests/Safety.antt =====
-- Commands from two shells, one of them unknown: what returns, what is kept, and what is a null dereference.
use nav.Base.{◌≡◌, refl, ◌≢◌, ◌↔◌, true, some, none, ◌∷◌, ◌++◌, codes, pos, int_eq}
use nav.Run.{ok, fault}
use nav.Run.Ensures.{Ensures, Returns}
use nav.Utils.{get_trailing_whitespace}
use nav.Utils.Words.{scan_past_nul, has_blank}
use nav.Utils.Terminated.{terminated}
use nav.ItemList.{get_first, list_get_node}
use nav.Shell.{compare_shell_pid}
use nav.Commands.Replies.{get_shell}
use nav.Commands.Invariant.{IsWellFormed}
use nav.Commands.Dispatch.{
  register, add, push, cmd_func, cmd_name, dispatch_command, lookup_command,
}
use nav.Commands.Dispatch.Keeps.{dispatch-IsWellFormed}
use nav.Commands.Dispatch.Table.{lookup_iff, StartsWith}
use nav.Commands.Safety.Total.{dispatch-Returns}
use nav.Commands.Safety.MissingArgs.{no_args-fault}
use nav.Commands.Isolation.{IsLocal}
use nav.Commands.Isolation.Dispatch.{dispatch-IsLocal}
use nav.Tests.Data.{
  os, world, world-IsWellFormed, world-Fits, found_shell, behind, add_c, shell, printable-IsWord,
}

terminated_add : terminated add_c ≡ true
unfolding terminated has_blank
terminated_add = refl

-- shell 7 sends `add c /z `
dispatch-Returns_example :
    Returns IsWellFormed (dispatch_command os world (codes "add") (pos 7) (some add_c))
dispatch-Returns_example =
    dispatch-Returns os world world-IsWellFormed world-Fits (pos 7) (codes "add") (some add_c)
      terminated_add

dispatch-IsLocal_example :
    Ensures
      (IsLocal os world (pos 7))
      (dispatch_command os world (codes "add") (pos 7) (some add_c))
dispatch-IsLocal_example =
    dispatch-IsLocal os world world-IsWellFormed (pos 7) (some add_c) (codes "add")

dispatch-IsWellFormed_example :
    Ensures IsWellFormed (dispatch_command os world (codes "pop") (pos 7) none)
dispatch-IsWellFormed_example =
    dispatch-IsWellFormed os world world-IsWellFormed (pos 7) none (codes "pop")

lookup_example :
    (lookup_command (codes "pushd") ≡ some push) ↔ StartsWith (codes "pushd") (cmd_name push)
lookup_example = lookup_iff (codes "pushd") push

no_args_example : cmd_func add os world (pos 7) none ≡ fault
no_args_example = no_args-fault os world (pos 7) add shell tt found_shell

not_found : get_shell world (pos 9) ≡ none
unfolding list_get_node get_first compare_shell_pid int_eq
not_found = refl

push_ne_register : push ≢ register
push_ne_register e = cc

scan_behind : get_trailing_whitespace (codes "xy" ++ behind) ≡ ok 2
unfolding get_trailing_whitespace
scan_behind = refl

-- the word `/z`, its NUL, and stale bytes `xy` with a newline: the scan stops at index 5
scan_past_nul_example : get_trailing_whitespace (codes "/z" ++ 0 ∷ codes "xy" ++ behind) ≡ ok 5
scan_past_nul_example =
    scan_past_nul (codes "/z") (codes "xy" ++ behind) 2 (printable-IsWord (codes "/z") refl)
      scan_behind

blank_add : has_blank add_c ≡ true
unfolding has_blank
blank_add = refl
