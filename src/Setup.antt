-- ===== src/Setup.antt =====
-- src/daemon/main.c: from `main` to the loop. The file system is a parameter.
pub mod Laws
pub mod Restart
pub mod Returns
pub mod Session
use nav.Base.{
  ℕ, zero, suc, ◌+◌, Bool, true, false, Option, none, some, List, [], ◌∷◌, ◌++◌, ◌≡◌, Bytes, codes,
  ℤ, pos, length, ltb, leb, ◌==◌, if◌then◌else◌,
}
use nav.Run.{Run, ok, ◌>>=◌, Exit, exit_success, exit_failure}
use nav.CString.{snprintf}
use nav.Utils.{Stat, found, enoent, other_error}
use nav.ItemList.{ItemList}
use nav.Tag.{Tag}
use nav.TagFile.{read_tag_file}
use nav.World.{State, World}
use nav.Lifecycle.{Singleton, null, live, init_state, get_state, deinit_state}

-- the calls that the daemon makes of the file system before its loop
pub record FileSystem : Type 1 where
  pub Files : Type 0
  pub fstatat : Files → Bytes → Stat
  pub mkdir : Files → Bytes → Bool × Files
  pub unlink : Files → Bytes → Files
  -- the content of a file that `fopen(…, "r")` opens
  pub content : Files → Bytes → Option Bytes
  -- a directory that was made is there
  pub mkdir_found : (f : Files) (p : Bytes) → (mkdir f p).0 ≡ true → fstatat (mkdir f p).1 p ≡ found

-- What the environment, the password database, `malloc` and the sockets answer. `options` is what `getopt`
-- gives; `memory` is for the lines of the tag file; `behind` lies behind its line buffer.
pub record Answers : Type 0 where
  pub options : Bytes
  pub config_env : Option Bytes
  pub cache_env : Option Bytes
  pub passwd : Option Bytes
  pub malloc : Bool
  pub memory : ℕ → Bool
  pub behind : Bytes
  pub socket : Option ℕ
  pub bind : Bool

abbrev pub config_size : ℕ
config_size = 4091

abbrev pub cache_size : ℕ
cache_size = 95

abbrev pub path_size : ℕ
path_size = 4096

-- `"/home/%s/.config/nav"`
abbrev pub default_config : Bytes → Bytes
default_config user = codes "/home/" ++ (user ++ codes "/.config/nav")

-- `"/home/%s/.cache/nav"`
abbrev pub default_cache : Bytes → Bytes
default_cache user = codes "/home/" ++ (user ++ codes "/.cache/nav")

-- src/shared/utils.c: the name in the password entry
abbrev pub get_username : Option Bytes → Option Bytes
get_username none = none
get_username (some pw_name) = some pw_name

-- the path in `dest`, if it is not too long
unfoldable pub dest_path : ℕ → Bytes → Option Bytes
dest_path dest_size path = if leb dest_size (length path) then none else some path

unfoldable pub choose_path : ℕ → Option Bytes → Bytes → Option Bytes
unfolding dest_path
choose_path dest_size (some temp_env) default = dest_path dest_size temp_env
choose_path dest_size none default = dest_path dest_size default

-- how `main` ends, or the world at its loop
pub data Started : Type 0 where
  exited : Exit → Started
  running : World → Started

-- the first option ends the program
unfoldable pub parse_args : Bytes → Option Exit
parse_args [] = none
parse_args (opt ∷ options) = if opt == b'v' then some exit_success else some exit_failure

module _ (fs : FileSystem) where
  open fs use {Files, fstatat, mkdir, unlink, content}

  abbrev pub made : Bytes → Bool × Files → Option Bytes × Files
  made dest (true, files) = (some dest, files)
  made dest (false, files) = (none, files)

  -- the directory is made if it is not there
  unfoldable pub make_directory : Files → Bytes → Stat → Option Bytes × Files
  make_directory files dest found = (some dest, files)
  make_directory files dest enoent = made dest (mkdir files dest)
  make_directory files dest other_error = (none, files)

  unfoldable pub directory_at : Files → Option Bytes → Option Bytes × Files
  unfolding make_directory
  directory_at files none = (none, files)
  directory_at files (some dest) = make_directory files dest (fstatat files dest)

  -- `none` is -1; `default` is the text of the format with the user's name
  unfoldable pub setup_directory : Files → ℕ → Option Bytes → Bytes → Option Bytes × Files
  unfolding choose_path directory_at
  setup_directory files dest_size env default =
      directory_at files (choose_path dest_size env default)

  -- `state->…_path` after both directories
  unfoldable pub setup_paths :
      Answers → Files → State → Bytes → Bytes → Bytes → Run (Option State × Files)
  setup_paths a files s user config cache =
      let nav_socket = cache ++ codes "/nav.sock" in
      let tagfile = snprintf path_size (config ++ codes "/tags") in
      if leb 108 (length nav_socket) then ok (none, files) else (do
        r ← read_tag_file (fstatat files) a.memory a.behind s.tags (content files tagfile)
        ok (
          some (record s {
            uname = some user;
            config_dir = config;
            cache_dir = cache;
            nav_socket_path = nav_socket;
            tagfile_path = tagfile;
            tags = r.1;
          }),
          files,
        ))

  unfoldable pub setup_cache :
      Answers → State → Bytes → Bytes → Option Bytes × Files → Run (Option State × Files)
  unfolding setup_paths
  setup_cache a s user config (none, files) = ok (none, files)
  setup_cache a s user config (some cache, files) = setup_paths a files s user config cache

  unfoldable pub setup_config :
      Answers → State → Bytes → Option Bytes × Files → Run (Option State × Files)
  unfolding setup_cache
  setup_config a s user (none, files) = ok (none, files)
  setup_config a s user (some config, files) =
      setup_cache a s user config
        (setup_directory files cache_size a.cache_env (default_cache user))

  unfoldable pub setup_user : Answers → Files → State → Option Bytes → Run (Option State × Files)
  unfolding setup_config
  setup_user a files s none = ok (none, files)
  setup_user a files s (some user) =
      setup_config a s user (setup_directory files config_size a.config_env (default_config user))

  -- `none` is an exit with a failure
  unfoldable pub setup_initial_state : Answers → Files → State → Run (Option State × Files)
  unfolding setup_user
  setup_initial_state a files s = setup_user a files s (get_username a.passwd)

  unfoldable pub bound : Bool → Files → State → ℕ → Started × Files
  bound false files s fd = (exited exit_failure, files)
  bound true files s fd = (
    running (record {
      state = record s { sfd = pos fd };
      sent = [];
      tagfile = content files s.tagfile_path;
    }),
    files,
  )

  unfoldable pub setup_socket : Answers → Files → State → Option ℕ → Started × Files
  unfolding bound
  setup_socket a files s none = (exited exit_failure, files)
  setup_socket a files s (some fd) = bound a.bind (unlink files s.nav_socket_path) s fd

  unfoldable pub with_state : Answers → Option State × Files → Started × Files
  unfolding setup_socket
  with_state a (none, files) = (exited exit_failure, files)
  with_state a (some s, files) = setup_socket a files s a.socket

  unfoldable pub with_singleton : Answers → Files → ℕ × Singleton → Run (Started × Files)
  unfolding with_state get_state
  with_singleton a files (zero, p) = do
    s ← get_state p
    r ← setup_initial_state a files s
    ok (with_state a r)
  with_singleton a files (suc err, p) = ok (exited exit_failure, files)

  unfoldable pub with_options : Answers → Files → Option Exit → Run (Started × Files)
  unfolding with_singleton init_state
  with_options a files none = with_singleton a files (init_state a.malloc null)
  with_options a files (some status) = ok (exited status, files)

  -- `main` up to its loop
  unfoldable pub main : Answers → Files → Run (Started × Files)
  unfolding with_options parse_args
  main a files = with_options a files (parse_args a.options)

  -- `main` behind its loop
  unfoldable pub shutdown : Files → State → Run (Files × Singleton)
  unfolding deinit_state
  shutdown files s = do p ← deinit_state (live s); ok (unlink files s.nav_socket_path, p)
