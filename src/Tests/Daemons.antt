-- ===== src/Tests/Daemons.antt =====
-- The daemon on the disk of `Files`: a process id out of range ends it.
use nav.Base.{◌≡◌, refl, arith, Bytes, [], ◌∷◌, codes, replicate, List}
use nav.Run.{ok}
use nav.Run.Ensures.{Returns}
use nav.CString.{strtok_r, strncmp}
use nav.World.{World, Os}
use nav.Commands.Safety.{Fits}
use nav.Commands.Tags.Listing.{tag_names, show_text}
use nav.Commands.Dispatch.{lookup_command}
use nav.Loop.{recv}
use nav.Loop.Buffer.Safe.{AllSafe}
use nav.Setup.{running, main}
use nav.Daemon.{daemon}
use nav.Daemon.Returns.{IsOrderly, daemon-Returns}
use nav.Tests.Data.{os}
use nav.Tests.Files.{disk, files, answers, disk-TagFileFits}
use nav.Tests.Sessions.{at_loop, begins}

at_loop-Fits : Fits at_loop
unfolding tag_names show_text
at_loop-Fits = record {
  names = omega arith;
  lines = omega arith;
  targets = omega arith;
  stacks = tt;
}

abbrev out_of_range : List (Os × Bytes)
out_of_range = (os, codes "9223372036854775808 pop\n") ∷ []

at_loop-AllSafe : AllSafe out_of_range at_loop (replicate 100 0)
unfolding recv strtok_r lookup_command strncmp
at_loop-AllSafe = (omega arith, refl, at_loop-Fits, tt, λ w' e. tt)

started-AllSafe :
    (w : World) (files' : disk.Files)
    → main disk answers files ≡ ok (running w, files')
    → AllSafe out_of_range w (replicate 100 0)
started-AllSafe w files' e = let same : at_loop ≡ w = cc (begins, e) in rw (← same) at_loop-AllSafe

daemon-Returns_example :
    Returns
      (λ r. IsOrderly r.0)
      (daemon disk (λ files p text. p ∷ files) answers [] out_of_range files)
daemon-Returns_example =
    daemon-Returns disk (λ files p text. p ∷ files) answers [] out_of_range files disk-TagFileFits
      started-AllSafe
