-- ===== src/Daemon/Returns.antt =====
-- The daemon of src/daemon/main.c from its start to its end.
use nav.Base.{◌≡◌, refl, ap, ◌∙◌, true, false, Option, List, Bytes, replicate, ◌++◌}
use nav.Run.{Run, ok}
use nav.Run.Ensures.{Returns, Returns-eq}
use nav.World.{World, Os}
use nav.Commands.Invariant.{IsWellFormed}
use nav.Lifecycle.Laws.{deinit-freed}
use nav.Loop.{Round, buf_size}
use nav.Loop.Buffer.{loop}
use nav.Loop.Buffer.Safe.{AllSafe, loop-Returns}
use nav.Setup.{FileSystem, Answers, Started, exited, running, main, shutdown}
use nav.Setup.Laws.{Starts}
use nav.Setup.Returns.{TagFileFits, main-Returns}
use nav.Daemon.{Outcome, ended, waiting, behind_loop, from_start, daemon}

-- it has ended, or waits in a well-formed state
abbrev pub IsOrderly : Outcome → Type 0
IsOrderly (ended status) = Unit
IsOrderly (waiting w) = IsWellFormed w

module _ (fs : FileSystem) (write : fs.Files → Bytes → Option Bytes → fs.Files) where
  open fs use {Files}

  abbrev Ends : Run (Outcome × Files) → Type 0
  Ends = Returns (λ r. IsOrderly r.0)

  behind_loop-Ends :
      (files : Files) (r : Round) → IsWellFormed r.1 → Ends (behind_loop fs write files r)
  unfolding behind_loop shutdown
  behind_loop-Ends files (true, w) v = v
  behind_loop-Ends files (false, w) v = rw (deinit-freed w v) tt

  module _ (a : Answers) (behind : Bytes) where
    from_start-Ends :
        (ds : List (Os × Bytes)) (r : Started × Files)
        → Starts r
        → ((w : World) (files' : Files)
            → r ≡ (running w, files')
            → AllSafe ds w (replicate buf_size 0 ++ behind))
        → Ends (from_start fs write behind ds r)
    unfolding from_start
    from_start-Ends ds (exited status, files) starts safe = tt
    from_start-Ends ds (running w, files) starts safe =
        let (r, run, v) =
          Returns-eq (loop behind ds w)
            (loop-Returns behind ds w starts.well_formed (safe w files refl)) in
        rw run (behind_loop-Ends files r v)

    -- The daemon, without its call of `register_signal_handlers`, returns, from its start with any options,
    -- environment, directories and answers of the system, with no access outside the receive buffer and the
    -- line buffer of `read_tag_file`, whatever lies behind them, and no other fault: it has ended, or waits
    -- for a datagram in a well-formed state. Every line of the tag file ends with a newline and has at most
    -- 255 bytes with it. If the daemon comes to its loop, then each datagram has at most 99 bytes and is
    -- empty or ends with a newline, and whenever one that is not empty comes the texts of the state fit the
    -- buffers of the handlers and `add`, `delete` and `get` have arguments.
    pub daemon-Returns :
        (ds : List (Os × Bytes)) (files : Files)
        → TagFileFits fs a files
        → ((w : World) (files' : Files)
            → main fs a files ≡ ok (running w, files')
            → AllSafe ds w (replicate buf_size 0 ++ behind))
        → Returns (λ r. IsOrderly r.0) (daemon fs write a behind ds files)
    unfolding daemon
    daemon-Returns ds files fits safe =
        let (r, run, starts) = Returns-eq (main fs a files) (main-Returns fs a files fits) in
        rw run (from_start-Ends ds r starts λ w files' same. safe w files' (run ∙ ap ok same))
