-- ===== src/Commands/Dispatch.antt =====
-- src/daemon/commands.c: the command table and `dispatch_command`.
pub mod Keeps
pub mod Table
use nav.Base.{ℕ, Option, none, some, List, [], ◌∷◌, Bytes, codes, length, ℤ, ◌==◌, if◌then◌else◌}
use nav.Run.{Run, ok, fault, hang}
use nav.CString.{strncmp}
use nav.World.{World, Os}
use nav.Commands.Replies.{Args, Command}
use nav.Commands.Registry.{cmd_register, cmd_unregister}
use nav.Commands.Tags.{cmd_add, cmd_delete, cmd_show, cmd_list, cmd_get}
use nav.Commands.Actions.{cmd_push, cmd_pop, cmd_actions, cmd_reset}

-- `enum commands`, in the order of the table
pub data CommandId : Type 0 where
  register unregister add delete show get push pop actions list reset : CommandId

unfoldable pub cmd_name : CommandId → Bytes
cmd_name register = codes "register"
cmd_name unregister = codes "unregister"
cmd_name add = codes "add"
cmd_name delete = codes "delete"
cmd_name show = codes "show"
cmd_name get = codes "get"
cmd_name push = codes "push"
cmd_name pop = codes "pop"
cmd_name actions = codes "actions"
cmd_name list = codes "list"
cmd_name reset = codes "reset"

unfoldable pub cmd_func : CommandId → Command
cmd_func register = cmd_register
cmd_func unregister = cmd_unregister
cmd_func add = cmd_add
cmd_func delete = cmd_delete
cmd_func show = cmd_show
cmd_func get = cmd_get
cmd_func push = cmd_push
cmd_func pop = cmd_pop
cmd_func actions = cmd_actions
cmd_func list = cmd_list
cmd_func reset = cmd_reset

unfoldable pub cmd_table : List CommandId
cmd_table =
    register ∷ unregister ∷ add ∷ delete ∷ show ∷ get ∷ push ∷ pop ∷ actions ∷ list ∷ reset ∷ []

-- the first entry whose name begins the string
find_command : Bytes → List CommandId → Option CommandId
find_command s [] = none
find_command s (c ∷ cs) =
    if strncmp s (cmd_name c) (length (cmd_name c)) == 0 then some c else find_command s cs

unfoldable pub lookup_command : Bytes → Option CommandId
unfolding find_command cmd_name cmd_table
lookup_command s = find_command s cmd_table

-- an unknown command is only logged
unfoldable pub run_command : Os → World → ℤ → Args → Option CommandId → Run World
run_command os w pid args none = ok w
run_command os w pid args (some c) = cmd_func c os w pid args

unfoldable pub dispatch_command : Os → World → Bytes → ℤ → Args → Run World
unfolding run_command
dispatch_command os w cmd_str pid args = run_command os w pid args (lookup_command cmd_str)
