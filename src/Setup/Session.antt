-- ===== src/Setup/Session.antt =====
-- The daemon of src/daemon/main.c from its start, over its loop, to its end.
use nav.Base.{
  sym, take_all, ℕ, ◌++◌, ◌∙◌, ◌<◌, ap, none, some, All, Bytes, codes, length, length-append, arith,
  ◌≡◌, refl,
}
use nav.Run.{ok}
use nav.CString.{snprintf}
use nav.Client.{daemon_path}
use nav.World.{World}
use nav.Commands.Invariant.{IsWellFormed}
use nav.Loop.Reach.{Reaches, reachable-IsWellFormed}
use nav.Lifecycle.{live, freed, handler}
use nav.Loop.Saved.{IsSaved, AlwaysOpens, reachable-IsSaved, reachable-nav_socket_path}
use nav.TagFile.RoundTrip.{IsWritable}
use nav.Lifecycle.Laws.{deinit-freed, handler_unlinks}
use nav.Setup.{FileSystem, Answers, running, main, shutdown}
use nav.Setup.Laws.{IsStarted, Starts, main-IsStarted}
use nav.Setup.Restart.{Ready, restarted_world, main_restarts}

socket_nonempty : (cache_dir : Bytes) → 0 < length (cache_dir ++ codes "/nav.sock")
socket_nonempty cache_dir = omega (arith, length-append cache_dir (codes "/nav.sock"))

module _ (fs : FileSystem) (a : Answers) (files files' : fs.Files) (w w' : World)
    (begins : main fs a files ≡ ok (running w, files')) (r : Reaches w w') where
  session-IsStarted : IsStarted w
  session-IsStarted =
      let h : Starts (running w, files') = rw begins at (main-IsStarted fs a files) in h

  -- When the daemon has started, with any environment and any tag file, every world that the rounds of its
  -- loop reach is well-formed; from there the handler of a signal, and the code behind the loop, return,
  -- free the state, and unlink the socket of the cache directory that the daemon started with.
  pub session_stops :
      (files'' : fs.Files)
      → IsWellFormed w'
        × (handler (live w'.state) ≡ ok (some (w.cache_dir ++ codes "/nav.sock"), freed))
        × (shutdown fs files'' w'.state
            ≡ ok (fs.unlink files'' (w.cache_dir ++ codes "/nav.sock"), freed))
  unfolding shutdown
  session_stops files'' =
      let h = session-IsStarted in
      let v = reachable-IsWellFormed h.well_formed r in
      let path : w'.nav_socket_path ≡ w.cache_dir ++ codes "/nav.sock" =
        reachable-nav_socket_path h.well_formed r ∙ h.socket in
      (
        v,
        handler_unlinks w' v (rw path (socket_nonempty w.cache_dir))
            ∙ ap (λ p. ok (some p, freed)) path,
        rw (deinit-freed w' v, path) refl,
      )

-- If the tag file holds the tags of a well-formed daemon and can always be opened, then a daemon that is
-- started on the file as it is after any rounds of the loop begins with the tags of that moment, if the
-- calls before its loop succeed, and if each tag has a name without `=`, a line of at most 255 bytes
-- and a path that is there.
pub session_survives :
    (fs : FileSystem) (a : Answers) (files : fs.Files) (w w' : World) (user config cache : Bytes)
    (fd : ℕ) (r : Reaches w w')
    → AlwaysOpens r
    → IsWellFormed w
    → IsSaved w
    → Ready fs a files user config cache fd
    → fs.content files (config ++ codes "/tags") ≡ w'.tagfile
    → All (IsWritable (fs.fstatat files)) w'.tags.items
    → main fs a files
      ≡ ok (
        running (restarted_world fs a files user config cache fd w'.tags),
        fs.unlink files (cache ++ codes "/nav.sock"),
      )
session_survives fs a files w w' user config cache fd r opens v saved ready same fits =
    main_restarts fs a files w'.tags none (reachable-IsWellFormed v r).tags ready fits
      (same ∙ reachable-IsSaved r opens v saved)

-- The client connects to the path that the daemon has bound, if both have the same cache directory.
pub daemon_path_bound : (w : World) → IsStarted w → w.nav_socket_path ≡ daemon_path w.cache_dir
unfolding daemon_path snprintf
daemon_path_bound w h =
    let whole =
      take_all 107 (w.cache_dir ++ codes "/nav.sock")
        (omega (arith, h.cache_short, length-append w.cache_dir (codes "/nav.sock"))) in
    h.socket ∙ sym whole
