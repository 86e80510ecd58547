-- ===== src/Daemon.antt =====
-- src/daemon/main.c: the whole of `main`, up to its loop, in it, and behind it.
pub mod Returns
use nav.Base.{true, false, Option, List, Bytes}
use nav.Run.{Run, ok, Exit, exit_success, ◌>>=◌}
use nav.World.{World, Os}
use nav.Loop.{Round}
use nav.Loop.Buffer.{loop}
use nav.Setup.{FileSystem, Answers, Started, exited, running, main, shutdown}

-- how the program ends, or the world in which it waits for a datagram
pub data Outcome : Type 0 where
  ended : Exit → Outcome
  waiting : World → Outcome

-- `write` gives the file at a path this content.
module _ (fs : FileSystem) (write : fs.Files → Bytes → Option Bytes → fs.Files) where
  open fs use {Files}

  -- the file system with the tag file as the loop left it
  abbrev pub saved : Files → World → Files
  saved files w = write files w.tagfile_path w.tagfile

  -- the loop ends at a process id out of range
  unfoldable pub behind_loop : Files → Round → Run (Outcome × Files)
  behind_loop files (true, w) = ok (waiting w, saved files w)
  behind_loop files (false, w) = do
    r ← shutdown fs (saved files w) w.state
    ok (ended exit_success, r.0)

  unfoldable pub from_start : Bytes → List (Os × Bytes) → Started × Files → Run (Outcome × Files)
  unfolding behind_loop
  from_start behind datagrams (exited status, files) = ok (ended status, files)
  from_start behind datagrams (running w, files) = do
    r ← loop behind datagrams w
    behind_loop files r

  -- `main` over the datagrams that come
  unfoldable pub daemon : Answers → Bytes → List (Os × Bytes) → Files → Run (Outcome × Files)
  unfolding from_start
  daemon a behind datagrams files = do s ← main fs a files; from_start behind datagrams s
