-- ===== src/Client.antt =====
-- src/client/main.c: one message to the daemon, and its reply. A run gives the calls that the client
-- makes of the system, in order, and its exit status.
pub mod Cleanup
pub mod Message
pub mod Exchange
pub mod Queries
pub mod Served
use nav.Base.{
  ℕ, ◌+◌, ◌-◌, Bool, true, false, Option, none, some, List, [], ◌∷◌, ◌++◌, Bytes, codes, bytes_eq,
  length, take, replicate, ltb, leb, ◌==◌, if◌then◌else◌,
}
use nav.Run.{Run, ok, fault, ◌>>=◌, Exit, exit_success, exit_failure}
use nav.CString.{snprintf, sprintf, cstr}
use nav.Commands.Replies.{sun_path_size}
use nav.Setup.{cache_size, default_cache, get_username, choose_path}

-- the answers of the system: the options that `getopt` gives, the arguments behind them, the environment,
-- and the calls; `recv` is the answer to a message, or none before the timeout
pub record ClientOs : Type 0 where
  pub options : Bytes
  pub argv : List Bytes
  pub cache_env : Option Bytes
  pub passwd : Option Bytes
  pub socket : Bool
  pub setsockopt : Bool
  pub bind : Bytes → Bool
  pub connect : Bytes → Bool
  pub recv : Bytes → Option Bytes

-- the calls that succeed, and the write of `my_addr.sun_path`
pub data Call : Type 0 where
  opened closed : Call
  addressed bound connected unlinked sent printed : Bytes → Call

abbrev pub Exited : Type 0
Exited = List Call × Exit

-- the buffer of `process_command`
abbrev pub message_size : ℕ
message_size = 1024

-- `sprintf(buf + offset, "%s ", *ptr)` for each argument
unfoldable pub print_args : Bytes → List Bytes → Run Bytes
print_args buf [] = ok buf
print_args buf (arg ∷ argv) = do
  buf' ← sprintf message_size buf (arg ++ b' ' ∷ [])
  print_args buf' argv

-- the buffer, cleared, after `recv`
unfoldable pub received : Bytes → Bytes
received datagram =
    let got = take message_size datagram in got ++ replicate (message_size - length got) 0

-- `printf("%s", buf)`, which reads past a buffer without NUL
unfoldable pub print_buf : Bytes → Run Bytes
print_buf [] = fault
print_buf (c ∷ m) =
    let more : Run Bytes = (do s ← print_buf m; ok (c ∷ s)) in if c == 0 then ok [] else more

unfoldable pub finish : Bytes → Bytes → Option Bytes → Run Exited
unfolding print_buf received
finish my_addr buf none = ok (sent buf ∷ closed ∷ unlinked my_addr ∷ [], exit_failure)
finish my_addr buf (some datagram) = do
  text ← print_buf (received datagram)
  ok (sent buf ∷ printed text ∷ closed ∷ unlinked my_addr ∷ [], exit_success)

unfoldable pub process_command : ClientOs → Bytes → List Bytes → Run Exited
unfolding finish print_args cstr
process_command sys my_addr argv = do
  buf ← print_args [] argv
  finish my_addr (cstr buf) (sys.recv (cstr buf))

-- `"%s/%s.sock"`
unfoldable pub client_path : Bytes → Bytes → Bytes
client_path cache_dir pid = snprintf sun_path_size (cache_dir ++ b'/' ∷ pid ++ codes ".sock")

-- `"%s/nav.sock"`
unfoldable pub daemon_path : Bytes → Bytes
daemon_path cache_dir = snprintf sun_path_size (cache_dir ++ codes "/nav.sock")

abbrev pub then_exited : List Call → Run Exited → Run Exited
then_exited calls r = do e ← r; ok (calls ++ e.0, e.1)

-- `setup_socket`, then `next`
unfoldable pub setup_socket : ClientOs → Bytes → Bytes → Run Exited → Run Exited
setup_socket sys my_addr nav_addr next =
    if sys.socket
    then (if sys.setsockopt
        then (if sys.bind my_addr
            then (if sys.connect nav_addr
                then then_exited
                    (opened ∷ addressed my_addr ∷ bound my_addr ∷ connected nav_addr ∷ []) next
                else ok (
                  opened ∷ addressed my_addr ∷ bound my_addr ∷ closed ∷ unlinked my_addr ∷ [],
                  exit_failure,
                ))
            else ok (opened ∷ addressed my_addr ∷ closed ∷ [], exit_failure))
        else ok (opened ∷ closed ∷ [], exit_failure))
    else ok ([], exit_failure)

-- `cache_dir`, from the environment or for the user
unfoldable pub cache_dir_of : Option Bytes → Option Bytes → Option Bytes
unfolding choose_path
cache_dir_of (some temp_env) passwd = choose_path cache_size (some temp_env) []
cache_dir_of none none = none
cache_dir_of none (some uname) = choose_path cache_size none (default_cache uname)

unfoldable pub with_cache_dir : ClientOs → Bytes → List Bytes → Option Bytes → Run Exited
unfolding setup_socket process_command client_path daemon_path
with_cache_dir sys pid argv none = ok ([], exit_failure)
with_cache_dir sys pid argv (some cache_dir) =
    let my_addr = client_path cache_dir pid in
    setup_socket sys my_addr (daemon_path cache_dir) (process_command sys my_addr argv)

-- the first argument behind the options names the client's socket, and is sent with the others
unfoldable pub with_argv : ClientOs → List Bytes → Run Exited
unfolding with_cache_dir cache_dir_of
with_argv sys [] = ok ([], exit_failure)
with_argv sys (pid ∷ argv) =
    with_cache_dir sys pid (pid ∷ argv) (cache_dir_of sys.cache_env sys.passwd)

-- the first option ends the program
unfoldable pub run_client : ClientOs → Bytes → Run Exited
unfolding with_argv
run_client sys [] = with_argv sys sys.argv
run_client sys (opt ∷ options) = ok ([], if opt == b'v' then exit_success else exit_failure)

unfoldable pub client_main : ClientOs → Run Exited
unfolding run_client
client_main sys = run_client sys sys.options

-- the signal handler, with `my_addr.sun_path`
unfoldable pub sigint_handler : Bytes → List Call
sigint_handler sun_path = if ltb 0 (length sun_path) then unlinked sun_path ∷ [] else []
