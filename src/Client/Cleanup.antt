-- ===== src/Client/Cleanup.antt =====
-- The socket file of the client of src/client/main.c, over its calls.
use nav.Base.{
  ◌≡◌, refl, true, Option, none, some, List, [], ◌∷◌, ◌++◌, Bytes, bytes_eq, bytes_eq_refl, length,
  ◌+◌, ◌==◌, ltb, lt→ltb, arith, if◌then◌else◌,
}
use nav.Run.{Run, ok, fault, exit_failure}
use nav.Run.Ensures.{Ensures, Ensures-bind, Ensures-if}
use nav.CString.{snprintf, sprintf, cstr}
use nav.Client.{
  ClientOs, Call, opened, closed, addressed, bound, connected, unlinked, Exited, message_size,
  print_args, print_buf, received, finish, process_command, client_path, daemon_path, then_exited,
  setup_socket, cache_dir_of, with_cache_dir, with_argv, run_client, client_main, sigint_handler,
}

-- `my_addr.sun_path`, and the socket files that the client has made and not removed
pub record Traces : Type 0 where
  pub sun_path : Bytes
  pub files : List Bytes

abbrev pub no_traces : Traces
no_traces = record { sun_path = []; files = [] }

unfoldable pub remove : Bytes → List Bytes → List Bytes
remove p [] = []
remove p (q ∷ files) = let rest = remove p files in if bytes_eq p q then rest else q ∷ rest

abbrev pub after : Call → Traces → Traces
after (addressed p) t = record t { sun_path = p }
after (bound p) t = record t { files = p ∷ t.files }
after (unlinked p) t = record t { files = remove p t.files }
after _ t = t

abbrev pub after_all : List Call → Traces → Traces
after_all [] t = t
after_all (c ∷ calls) t = after_all calls (after c t)

-- the signal handler removes what is there
abbrev Stoppable : Traces → Type 0
Stoppable t = (after_all (sigint_handler t.sun_path) t).files ≡ []

abbrev AlwaysStoppable : List Call → Traces → Type 0
AlwaysStoppable [] t = Stoppable t
AlwaysStoppable (c ∷ calls) t = Stoppable t × AlwaysStoppable calls (after c t)

-- no file is left at the end, nor after a signal between any two of the calls
abbrev pub IsCleanFrom : Traces → Exited → Type 0
IsCleanFrom t e = ((after_all e.0 t).files ≡ []) × AlwaysStoppable e.0 t

abbrev Ends : {A : Type 0} → Run A → Type 0
Ends = Ensures (λ _. Unit)

print_buf-Ends : (m : Bytes) → Ends (print_buf m)
unfolding print_buf
print_buf-Ends [] = tt
print_buf-Ends (c ∷ m) =
    Ensures-if (λ _. Unit) (c == 0) (ok []) _ tt
      (Ensures-bind (λ _. Unit) (λ _. Unit) (print_buf m) _ (print_buf-Ends m) λ s _. tt)

print_args-Ends : (buf : Bytes) (argv : List Bytes) → Ends (print_args buf argv)
unfolding print_args sprintf
print_args-Ends buf [] = tt
print_args-Ends buf (arg ∷ argv) =
    Ensures-bind (λ _. Unit) (λ _. Unit) (sprintf message_size buf (arg ++ b' ' ∷ [])) _
      (Ensures-if (λ _. Unit) (ltb (length buf + length (arg ++ b' ' ∷ [])) message_size) (ok _)
        fault tt tt)
      λ buf' _. print_args-Ends buf' argv

-- what `IsCleanFrom` says of the calls from the start
abbrev pub IsClean : Exited → Type 0
IsClean = IsCleanFrom no_traces

removed : (p : Bytes) → remove p (p ∷ []) ≡ []
unfolding remove
removed p = rw (bytes_eq_refl p)

module _ (p : Bytes) (named : ltb 0 (length p) ≡ true) where
  unlinks : sigint_handler p ≡ unlinked p ∷ []
  unfolding sigint_handler
  unlinks = rw named

  stop_bound : Stoppable (record { sun_path = p; files = p ∷ [] })
  stop_bound = rw unlinks (removed p)

  stop_addressed : Stoppable (record { sun_path = p; files = [] })
  unfolding remove
  stop_addressed = rw unlinks refl

  finish-IsClean :
      (buf : Bytes) (reply : Option Bytes)
      → Ensures (IsCleanFrom (record { sun_path = p; files = p ∷ [] })) (finish p buf reply)
  unfolding finish
  finish-IsClean buf none =
      (removed p, (stop_bound, (stop_bound, (stop_bound, rw (removed p) stop_addressed))))
  finish-IsClean buf (some d) =
      Ensures-bind (λ _. Unit) _ (print_buf (received d)) _ (print_buf-Ends (received d))
        λ text _. (
          removed p,
          (stop_bound, (stop_bound, (stop_bound, (stop_bound, rw (removed p) stop_addressed)))),
        )

  setup_socket-IsClean :
      (sys : ClientOs) (nav_addr : Bytes) (next : Run Exited)
      → Ensures (IsCleanFrom (record { sun_path = p; files = p ∷ [] })) next
      → Ensures (IsCleanFrom no_traces) (setup_socket sys p nav_addr next)
  unfolding setup_socket sigint_handler
  setup_socket-IsClean sys nav_addr next h =
      Ensures-if (IsCleanFrom no_traces) sys.socket _ (ok ([], exit_failure))
        (Ensures-if (IsCleanFrom no_traces) sys.setsockopt _
          (ok (opened ∷ closed ∷ [], exit_failure))
          (Ensures-if (IsCleanFrom no_traces) (sys.bind p) _
            (ok (opened ∷ addressed p ∷ closed ∷ [], exit_failure))
            (Ensures-if (IsCleanFrom no_traces) (sys.connect nav_addr)
              (then_exited (opened ∷ addressed p ∷ bound p ∷ connected nav_addr ∷ []) next)
              (ok (opened ∷ addressed p ∷ bound p ∷ closed ∷ unlinked p ∷ [], exit_failure))
              (Ensures-bind (IsCleanFrom (record { sun_path = p; files = p ∷ [] }))
                (IsCleanFrom no_traces) next _ h
                λ e c. (c.0, (refl, (refl, (stop_addressed, (stop_bound, c.1))))))
              (
                removed p,
                (
                  refl,
                  (
                    refl,
                    (stop_addressed, (stop_bound, (stop_bound, rw (removed p) stop_addressed))),
                  ),
                ),
              ))
            (refl, (refl, (refl, (stop_addressed, stop_addressed)))))
          (refl, (refl, (refl, refl))))
        (refl, refl)

client_path_named : (cache_dir pid : Bytes) → ltb 0 (length (client_path cache_dir pid)) ≡ true
unfolding client_path snprintf
client_path_named [] pid = lt→ltb 0 _ (omega arith)
client_path_named (c ∷ cache_dir) pid = lt→ltb 0 _ (omega arith)

module _ (sys : ClientOs) where
  with_cache_dir-IsClean :
      (pid : Bytes) (argv : List Bytes) (o : Option Bytes)
      → Ensures (IsCleanFrom no_traces) (with_cache_dir sys pid argv o)
  unfolding with_cache_dir sigint_handler process_command
  with_cache_dir-IsClean pid argv none = (refl, refl)
  with_cache_dir-IsClean pid argv (some cache_dir) =
      let p = client_path cache_dir pid in
      let named = client_path_named cache_dir pid in
      setup_socket-IsClean p named sys (daemon_path cache_dir) _ (
        Ensures-bind (λ _. Unit) _ (print_args [] argv) _ (print_args-Ends [] argv)
          λ buf _. finish-IsClean p named (cstr buf) (sys.recv (cstr buf)))

  -- The client ends, with any arguments and any answers of the system, or its code behaves in no defined
  -- way, as for a message that is too long. When it exits, whatever the status, its socket file is gone;
  -- and a signal between any two of its calls, once its handler is registered, leaves no socket file.
  pub client_main-IsClean : Ensures IsClean (client_main sys)
  unfolding client_main run_client with_argv sigint_handler
  client_main-IsClean = by_options sys.options
    where
      by_argv : (argv : List Bytes) → Ensures IsClean (with_argv sys argv)
      by_argv [] = (refl, refl)
      by_argv (pid ∷ argv) =
          with_cache_dir-IsClean pid (pid ∷ argv) (cache_dir_of sys.cache_env sys.passwd)

      by_options : (options : Bytes) → Ensures IsClean (run_client sys options)
      by_options [] = by_argv sys.argv
      by_options (opt ∷ options) = (refl, refl)
