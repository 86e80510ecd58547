-- ===== src/World.antt =====
-- src/daemon/state.h and what the daemon changes outside its memory: the datagrams that it sends and
-- the tag file. `Os` is what the system answers while one message is handled.
use nav.Base.{Bool, Option, List, [], ◌∷◌, ◌++◌, Bytes, ℤ}
use nav.Utils.{Stat}
use nav.ItemList.{ItemList}
use nav.Tag.{Tag}
use nav.Shell.{Shell}

pub record State : Type 0 where
  pub config_dir : Bytes
  pub cache_dir : Bytes
  pub nav_socket_path : Bytes
  pub tagfile_path : Bytes
  pub uname : Option Bytes
  pub sfd : ℤ
  pub shells : ItemList Shell
  pub tags : ItemList Tag

-- `to` is the `sun_path` of the address
pub record Datagram : Type 0 where
  pub to : Bytes
  pub payload : Bytes

-- `sent` is oldest first; `tagfile` is the content of the file at `tagfile_path`
pub record World : Type 0 where
  pub state : State
  pub open state use *
  pub sent : List Datagram
  pub tagfile : Option Bytes

-- The answers of `fstatat` at each path, of `fopen(…, "w")`, and of the two calls of `malloc` that a
-- command can make, for a node and for its data.
pub record Os : Type 0 where
  pub fstatat : Bytes → Stat
  pub fopen_w : Bool
  pub node_alloc : Bool
  pub data_alloc : Bool

-- the code ignores the result of `sendto`
unfoldable pub sendto : World → Bytes → Bytes → World
sendto w to payload = record w { sent = w.sent ++ record { to = to; payload = payload } ∷ [] }
