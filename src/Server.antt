-- ===== src/Server.antt =====
-- What the daemon of src/daemon promises its clients, with no nodes, counters, addresses or buffers: a map from names
-- to paths, the order of the names, and a stack of paths for each registered shell.
pub mod View
pub mod Refines
pub mod Names
pub mod Stacks
pub mod Listings
pub mod Arguments
pub mod Serves
pub mod Rounds
pub mod Replay
pub mod Restart
pub mod Isolation
pub mod Overrun
use nav.Base.{
  ◌≡◌, ℕ, Bool, true, false, Option, none, some, List, [], ◌∷◌, ◌++◌, Bytes, bytes_eq, codes, ℤ,
  int_eq, if◌then◌else◌, ◌+◌, ◌-◌, length, replicate, take,
}
use nav.CString.{print_nat}
use nav.Commands.Replies.{ok_reply, ok_nul_reply, bad_reply}
use nav.Commands.Tags.Names.{with_name, without_name}
use nav.Commands.Dispatch.{
  CommandId, register, unregister, add, delete, get, push, pop, actions, reset, list, show,
}

pub record Server : Type 0 where
  pub names : List Bytes
  pub paths : Bytes → Option Bytes
  pub stacks : ℤ → Option (List Bytes)

-- what a shell asks for
pub data Request : Type 0 where
  join quit pop_path clear history all_names all_paths : Request
  bind : (tag path : Bytes) → Request
  unbind find : (tag : Bytes) → Request
  push_path : (path : Bytes) → Request

-- the command of a request, and its arguments
unfoldable pub command_of : Request → CommandId
command_of join = register
command_of quit = unregister
command_of pop_path = pop
command_of clear = reset
command_of history = actions
command_of all_names = list
command_of all_paths = show
command_of (bind tag path) = add
command_of (unbind tag) = delete
command_of (find tag) = get
command_of (push_path path) = push

unfoldable pub words_of_request : Request → List Bytes
words_of_request (bind tag path) = tag ∷ path ∷ []
words_of_request (unbind tag) = tag ∷ []
words_of_request (find tag) = tag ∷ []
words_of_request (push_path path) = path ∷ []
words_of_request join = []
words_of_request quit = []
words_of_request pop_path = []
words_of_request clear = []
words_of_request history = []
words_of_request all_names = []
words_of_request all_paths = []

-- a new name is the last
abbrev pub bind_path : Bytes → Bytes → Server → Server
bind_path tag path a = record a {
  names = with_name tag (a.paths tag) a.names;
  paths = λ k. if bytes_eq tag k then some path else a.paths k;
}

abbrev pub unbind_path : Bytes → Server → Server
unbind_path tag a = record a {
  names = without_name tag a.names;
  paths = λ k. if bytes_eq tag k then none else a.paths k;
}

abbrev pub set_stack : ℤ → Option (List Bytes) → Server → Server
set_stack pid o a = record a { stacks = λ q. if int_eq pid q then o else a.stacks q }

-- the paths, numbered from the top
unfoldable pub numbered : ℕ → List Bytes → Bytes
numbered i [] = []
numbered i (p ∷ rest) =
    (codes "    " ++ print_nat i ++ codes ". " ++ p ++ b'\n' ∷ []) ++ numbered (i + 1) rest

-- the names with a space between each two, and NULs up to 256 bytes
unfoldable pub joined : List Bytes → Bytes
joined [] = []
joined (n ∷ []) = n
joined (n ∷ m ∷ ns) = n ++ codes " " ++ joined (m ∷ ns)

abbrev pub listed : List Bytes → Bytes
listed ns = joined ns ++ replicate (256 - length (joined ns)) 0

-- each name with its path on a line
abbrev pub path_line : Bytes → Option Bytes → Bytes
path_line n none = []
path_line n (some path) = n ++ codes " --> " ++ path ++ b'\n' ∷ []

unfoldable pub path_lines : (Bytes → Option Bytes) → List Bytes → Bytes
path_lines paths [] = []
path_lines paths (n ∷ ns) = path_line n (paths n) ++ path_lines paths ns

-- the path is on the top
abbrev pub on_top : Bytes → List Bytes → Bool
on_top path [] = false
on_top path (p ∷ rest) = bytes_eq p path

abbrev pub found_path : Option Bytes → Bytes
found_path none = bad_reply
found_path (some path) = path ++ b'\n' ∷ []

abbrev pub unbound : Bytes → Server → Option Bytes → Server × Bytes
unbound tag a none = (a, bad_reply)
unbound tag a (some path) = (unbind_path tag a, ok_reply)

abbrev pub popped : ℤ → Server → List Bytes → Server × Bytes
popped pid a [] = (a, bad_reply)
popped pid a (p ∷ rest) = (set_stack pid (some rest) a, p ++ b'\n' ∷ [])

-- the answer to a registered shell with this stack; `valid` says which paths are there
abbrev pub answered : (Bytes → Bool) → ℤ → Request → List Bytes → Server → Server × Bytes
answered valid pid join stack a = (a, ok_nul_reply)
answered valid pid quit stack a = (set_stack pid none a, ok_reply)
answered valid pid pop_path stack a = popped pid a stack
answered valid pid clear stack a = (set_stack pid (some []) a, ok_nul_reply)
answered valid pid history stack a = (a, numbered 1 stack)
answered valid pid all_names stack a = (a, listed a.names)
answered valid pid all_paths stack a = (a, take 2047 (path_lines a.paths a.names))
answered valid pid (bind tag path) stack a =
    if valid path then (bind_path tag path a, ok_reply) else (a, bad_reply)
answered valid pid (unbind tag) stack a = unbound tag a (a.paths tag)
answered valid pid (find tag) stack a = (a, found_path (a.paths tag))
answered valid pid (push_path path) stack a =
    if valid path
    then if on_top path stack
      then (a, ok_nul_reply)
      else (set_stack pid (some (path ∷ stack)) a, ok_nul_reply)
    else (a, bad_reply)

-- a shell that has not registered can only register
abbrev pub serve_shell :
    (Bytes → Bool) → ℤ → Request → Option (List Bytes) → Server → Server × Option Bytes
serve_shell valid pid r (some stack) a =
    let (a', reply) = answered valid pid r stack a in (a', some reply)
serve_shell valid pid join none a = (set_stack pid (some []) a, some ok_nul_reply)
serve_shell valid pid _ none a = (a, none)

-- a request and its reply
unfoldable pub serve : (Bytes → Bool) → ℤ → Request → Server → Server × Option Bytes
serve valid pid r a = serve_shell valid pid r (a.stacks pid) a
