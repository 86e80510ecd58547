-- ===== src/Lifecycle.antt =====
-- src/daemon/state.c: the one state of the daemon, from `init_state` to `deinit_state`.
pub mod Laws
use nav.Base.{
  ℕ, Bool, true, false, none, [], Bytes, negsuc, length, ltb, Option, some, if◌then◌else◌,
}
use nav.Run.{Run, ok, fault, ◌>>=◌}
use nav.ItemList.{empty, list_delete_all}
use nav.Tag.{cleanup_tag}
use nav.Shell.{cleanup_shell}
use nav.World.{State}

-- `singleton_state`: null, a pointer to a state, or a pointer to memory that was freed
pub data Singleton : Type 0 where
  null freed : Singleton
  live : State → Singleton

abbrev pub initial_state : State
initial_state = record {
  config_dir = [];
  cache_dir = [];
  nav_socket_path = [];
  tagfile_path = [];
  uname = none;
  sfd = negsuc 0;
  shells = empty;
  tags = empty;
}

-- only a null pointer is initialised
unfoldable pub init_state : Bool → Singleton → ℕ × Singleton
init_state malloc null = if malloc then (0, live initial_state) else (1, null)
init_state malloc freed = (1, freed)
init_state malloc (live s) = (1, live s)

-- The pointer is not set to null.
unfoldable pub deinit_state : Singleton → Run Singleton
deinit_state null = fault
deinit_state freed = fault
deinit_state (live s) = do
  shells ← list_delete_all cleanup_shell s.shells
  tags ← list_delete_all cleanup_tag s.tags
  ok freed

-- what the callers of `get_state` read through the pointer
unfoldable pub get_state : Singleton → Run State
get_state null = fault
get_state freed = fault
get_state (live s) = ok s

-- The signal handler in src/daemon/main.c: the path that it unlinks, if that is not empty, and what it
-- leaves of the state before it exits.
unfoldable pub handler : Singleton → Run (Option Bytes × Singleton)
unfolding get_state deinit_state
handler p = do
  s ← get_state p
  p' ← deinit_state p
  ok (if ltb 0 (length s.nav_socket_path) then some s.nav_socket_path else none, p')
