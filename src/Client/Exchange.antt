-- ===== src/Client/Exchange.antt =====
-- src/client/main.c with src/daemon/main.c: a message of the client, the round of the daemon that it
-- causes, and the reply that the client prints.
use nav.Base.{
  ℕ, ◌^◌, ◌≡◌, refl, ◌∙◌, ◌≤◌, ◌<◌, true, false, Option, none, some, List, [], ◌∷◌, ◌++◌, All,
  Bytes, bytes_eq, bytes_eq_refl, ◌≢◌, append-nil, All-mono, length, drop, drop-append, lt→ltb, pos,
  if◌then◌else◌, arith,
}
use nav.Run.{Run, ok, fault, hang, exit_success}
use nav.CString.{is_delim, cstr, print_nat, print_int}
use nav.World.{World, Os, Datagram}
use nav.Commands.Replies.{socket_path, reply_to}
use nav.Commands.Tags.Parse.{IsName, spell}
use nav.Commands.Dispatch.{dispatch_command}
use nav.Loop.{Round, round}
use nav.Loop.Message.{sentence, args_of, sentence-Plain, round-dispatch}
use nav.Loop.Decimal.{print_nat-IsNumeral, IsNumeral-IsName}
use nav.Client.{
  ClientOs, Call, opened, closed, addressed, bound, connected, unlinked, sent, printed,
  message_size, print_args, finish, process_command, client_path, daemon_path, setup_socket,
  cache_dir_of, with_cache_dir, with_argv, run_client, client_main,
}
use nav.Client.Message.{print_args-sentence, print-received}

-- the first datagram to a socket
unfoldable pub mail_of : Bytes → List Datagram → Option Bytes
mail_of path [] = none
mail_of path (d ∷ ds) = if bytes_eq d.to path then some d.payload else mail_of path ds

-- what a round of the daemon sends to a socket
unfoldable pub answer_at : World → Bytes → Run Round → Option Bytes
unfolding mail_of
answer_at w path (ok (goes_on, w')) = mail_of path (drop (length w.sent) w'.sent)
answer_at w path fault = none
answer_at w path hang = none

-- The calls of the client succeed, that of connect on the path that the daemon has bound, with the arguments `argv` and the directory `cache_dir`; the message
-- is answered by a round of the daemon.
pub record Online (sys : ClientOs) (os : Os) (w : World) (old : Bytes) (pid : Bytes)
    (argv : List Bytes) : Type 0 where
  pub no_options : sys.options ≡ []
  pub given : sys.argv ≡ pid ∷ argv
  pub same_dir : cache_dir_of sys.cache_env sys.passwd ≡ some w.cache_dir
  pub socket : sys.socket ≡ true
  pub setsockopt : sys.setsockopt ≡ true
  pub bind : (p : Bytes) → sys.bind p ≡ true
  pub listens : w.nav_socket_path ≡ daemon_path w.cache_dir
  pub connect : sys.connect w.nav_socket_path ≡ true
  pub recv :
      (message : Bytes)
      → sys.recv message ≡ answer_at w (client_path w.cache_dir pid) (round os w old message)

-- the calls of a client that gets a reply
abbrev pub exchanged : Bytes → Bytes → Bytes → Bytes → List Call
exchanged cache_dir pid message text =
    let p = client_path cache_dir pid in
    opened
    ∷ addressed p
    ∷ bound p
    ∷ connected (daemon_path cache_dir)
    ∷ sent message
    ∷ printed text
    ∷ closed
    ∷ unlinked p
    ∷ []

module _ (sys : ClientOs) (os : Os) (w : World) (old : Bytes) (pid : Bytes)
    (argv : List Bytes) where
  pub client_prints :
      (payload : Bytes)
      → Online sys os w old pid argv
      → length (sentence (pid ∷ argv)) < message_size
      → cstr (sentence (pid ∷ argv)) ≡ sentence (pid ∷ argv)
      → answer_at w (client_path w.cache_dir pid) (round os w old (sentence (pid ∷ argv)))
        ≡ some payload
      → length payload < message_size
      → client_main sys
        ≡ ok (exchanged w.cache_dir pid (sentence (pid ∷ argv)) (cstr payload), exit_success)
  unfolding client_main run_client with_argv with_cache_dir setup_socket process_command finish
  client_prints payload on short plain got fits =
      let reached : sys.connect (daemon_path w.cache_dir) ≡ true = rw (← on.listens) on.connect in
      let whole : print_args [] (pid ∷ argv) ≡ ok (sentence (pid ∷ argv)) =
        rw
          (
            print_args-sentence (pid ∷ argv),
            lt→ltb (length (sentence (pid ∷ argv))) message_size short,
          )
          refl in
      rw
        (
          on.no_options,
          run_client,
          on.given,
          with_argv,
          on.same_dir,
          with_cache_dir,
          on.socket,
          on.setsockopt,
          on.bind _,
          reached,
          whole,
          plain,
          on.recv,
          got,
          finish,
          (print-received payload).0 fits,
          plain,
        )
        refl

pub cstr_id : (s : Bytes) → All (λ c. c ≢ 0) s → cstr s ≡ s
unfolding cstr
cstr_id [] h = refl
cstr_id (c ∷ s) h = rw (cstr_id s h.1) (ground (arith, h.0))

pub same_path : (dir : Bytes) (n : ℕ) → client_path dir (print_nat n) ≡ socket_path dir (pos n)
unfolding client_path socket_path print_int
same_path dir n = refl

pub mail_sent :
    (w w' : World) (path payload : Bytes)
    → w'.sent ≡ w.sent ++ reply_to path payload
    → answer_at w path (ok (true, w')) ≡ some payload
unfolding answer_at mail_of
mail_sent w w' path payload e =
    rw (e, drop-append w.sent (reply_to path payload), mail_of, bytes_eq_refl path) refl

-- The daemon's socket takes a message of the client of at most 100 bytes, whose words have no NUL, space
-- or newline, with the process id below 2^31 in front, into a receive buffer in which a NUL is behind it.
module _ (os : Os) (w : World) (old : Bytes) (n : ℕ) (cmd_str : Bytes) (words : List Bytes)
    (m : Bytes) where
  abbrev pub message : Bytes
  message = sentence (print_nat n ∷ cmd_str ∷ words)

  pub record Fits : Type 0 where
    pub pid : n < 2 ^ 31
    pub command : IsName cmd_str
    pub arguments : All IsName words
    pub short : length message ≤ 100
    pub behind : drop (length message) old ≡ 0 ∷ m

  module _ (sys : ClientOs) (on : Online sys os w old (print_nat n) (cmd_str ∷ words))
      (f : Fits) where
    -- If the command returns, and has sent one reply of fewer than 1024 bytes, to the shell, the client
    -- prints that reply, up to its first NUL, and exits with success.
    pub exchange :
        (w' : World) (payload : Bytes)
        → dispatch_command os w cmd_str (pos n) (args_of words m) ≡ ok w'
        → w'.sent ≡ w.sent ++ reply_to (socket_path w.cache_dir (pos n)) payload
        → length payload < message_size
        → client_main sys
          ≡ ok (exchanged w.cache_dir (print_nat n) message (cstr payload), exit_success)
    unfolding spell
    exchange w' payload run replied fits =
        let names : All IsName (print_nat n ∷ cmd_str ∷ words) =
          (IsNumeral-IsName _ (print_nat-IsNumeral n), (f.command, f.arguments)) in
        let plain = cstr_id message (
          All-mono (λ c. (c ≢ 0) × (is_delim [] c ≡ false)) (λ c. c ≢ 0) message (λ c p. p.0)
            (sentence-Plain (print_nat n ∷ cmd_str ∷ words) names)) in
        let served : round os w old message ≡ ok (true, w') =
          round-dispatch os w n cmd_str words [] old m f.pid f.command f.arguments tt f.short
            f.behind
          ∙ rw (append-nil words, run) refl in
        client_prints sys os w old (print_nat n) (cmd_str ∷ words) payload on
          (omega (arith, f.short)) plain
          (rw (served, same_path w.cache_dir n)
            (mail_sent w w' (socket_path w.cache_dir (pos n)) payload replied))
          fits
