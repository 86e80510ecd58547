-- ===== src/Client/Served.antt =====
-- src/client/main.c with the daemon as a `Server`: what the client prints for a request.
use nav.Base.{◌≡◌, ◌≤◌, ◌<◌, some, ◌∷◌, Bytes, drop, length}
use nav.Run.{ok, exit_success}
use nav.CString.{cstr, print_nat}
use nav.World.{World}
use nav.Commands.Invariant.{IsWellFormed}
use nav.Commands.Dispatch.{cmd_name}
use nav.Client.{ClientOs, client_main}
use nav.Base.{arith, pos, [], All, All-mono, ◌≢◌, false}
use nav.CString.{is_delim}
use nav.Commands.Tags.Parse.{IsName}
use nav.Commands.Replies.{socket_path}
use nav.Loop.Message.{sentence-Plain}
use nav.Loop.Decimal.{print_nat-IsNumeral, IsNumeral-IsName}
use nav.Server.Arguments.{Suits}
use nav.Server.Rounds.{round-Follows}
use nav.Client.Exchange.{client_prints, same_path, mail_sent, cstr_id, Online, exchanged}
use nav.Server.{command_of, words_of_request}
use nav.Server.View.{view}
use nav.Server.Rounds.{Turn, message_of, serve_turn, CanServe, cmd_name-IsName}

-- In a well-formed state, a client that is called with a request prints the reply of the specification, up
-- to its first NUL, and exits with success, if the specification replies with less than 1024 bytes, the
-- request can be served, the system's calls succeed, and the message has at most 100 bytes. In the
-- daemon's buffer a NUL and further on a space or newline are behind the message, the NUL right behind it
-- if the request is an `add`.
pub client_serves :
    (w : World) (v : IsWellFormed w) (t : Turn) (old x payload : Bytes) (sys : ClientOs)
    → CanServe t (view w)
    → (serve_turn t (view w)).1 ≡ some payload
    → length payload < 1024
    → Online sys t.os w old
        (print_nat t.pid)
        (cmd_name (command_of t.request) ∷ words_of_request t.request)
    → length (message_of t) ≤ 100
    → drop (length (message_of t)) old ≡ x
    → Suits t.request x
    → client_main sys
      ≡ ok (exchanged w.cache_dir (print_nat t.pid) (message_of t) (cstr payload), exit_success)
client_serves w v t old x payload sys can reply fits on short behind suits =
    let (w', run, follows) = round-Follows w v t can old x short behind suits in
    let argv = cmd_name (command_of t.request) ∷ words_of_request t.request in
    let names : All IsName (print_nat t.pid ∷ argv) = (
      IsNumeral-IsName _ (print_nat-IsNumeral t.pid),
      (cmd_name-IsName (command_of t.request), can.words),
    ) in
    let plain = cstr_id (message_of t) (
      All-mono (λ c. (c ≢ 0) × (is_delim [] c ≡ false)) (λ c. c ≢ 0) (message_of t) (λ c p. p.0)
        (sentence-Plain (print_nat t.pid ∷ argv) names)) in
    client_prints sys t.os w old (print_nat t.pid) argv payload on (omega (arith, short)) plain
      (rw (run, same_path w.cache_dir t.pid)
        (mail_sent w w' (socket_path w.cache_dir (pos t.pid)) payload
          (rw reply at follows.gives.1)))
      fits
