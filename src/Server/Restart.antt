-- ===== src/Server/Restart.antt =====
-- The daemon of src/daemon/main.c that stops after some requests and starts again, as a `Server`.
use nav.Base.{ℕ, ◌≡◌, ap, true, none, List, ◌++◌, All, Bytes, codes}
use nav.Run.{ok}
use nav.Utils.Words.{has_blank}
use nav.ItemList.{list_get_node, get_first}
use nav.TagFile.RoundTrip.{IsWritable}
use nav.World.{World}
use nav.Commands.Invariant.{IsWellFormed}
use nav.Loop.Saved.{IsSaved}
use nav.Loop.Buffer.{loop}
use nav.Loop.Buffer.Reached.{AllOpen, loop-ReachesOpen}
use nav.Setup.{FileSystem, Answers, running, main}
use nav.Setup.Restart.{Ready, restarted_world}
use nav.Setup.Session.{session_survives}
use nav.Server.{Server}
use nav.Server.View.{view}
use nav.Server.Rounds.{Turn}
use nav.Server.Replay.{received, replay, CanReplay, SizesFit, Replays, loop-Replays}

-- the names stay, and no shell is registered
abbrev pub restarted : Server → Server
restarted a = record a { stacks = λ pid. none }

-- A daemon that has served requests, of any shells and in any order, and is started again on the tag
-- file that it left, begins in the state that the specification holds after these requests, with all
-- names, in their order, and without the shells. Its state was well-formed and in the tag file when the
-- first request came; each request can be served when it comes, in a message of at most 99 bytes, that of
-- an `add` not shorter than those before it; the tag file can be opened in every round; a space or newline
-- is somewhere behind the receive buffer; the calls before the loop of the new daemon succeed; and each
-- tag has a name without `=`, a line of at most 255 bytes and a path that is there.
pub replay-survives :
    (behind : Bytes) (ts : List Turn) (w w' : World) (fs : FileSystem) (a : Answers)
    (files : fs.Files) (user config cache : Bytes) (fd : ℕ)
    → has_blank behind ≡ true
    → IsWellFormed w
    → IsSaved w
    → CanReplay ts (view w)
    → SizesFit 0 ts
    → AllOpen (received ts)
    → loop behind (received ts) w ≡ ok (true, w')
    → Ready fs a files user config cache fd
    → fs.content files (config ++ codes "/tags") ≡ w'.tagfile
    → All (IsWritable (fs.fstatat files)) w'.tags.items
    → (w2 : World) × (main fs a files
        ≡ ok (running w2, fs.unlink files (cache ++ codes "/nav.sock")))
      × (view w2 ≡ restarted (replay ts (view w)))
unfolding list_get_node get_first
replay-survives behind ts w w' fs a files user config cache fd blank v saved can sizes opens run
      ready same fits =
    let (reached, all_open) = loop-ReachesOpen behind (received ts) w w' opens run in
    let served : Replays w ts (true, w') = rw run at (loop-Replays behind blank ts w v can sizes) in
    (
      restarted_world fs a files user config cache fd w'.tags,
      session_survives fs a files w w' user config cache fd reached all_open v saved ready same
          fits,
      ap restarted served.held,
    )
