-- ===== src/Loop/Saved.antt =====
-- The tag file over the rounds of the loop in src/daemon/main.c.
use nav.Base.{◌≡◌, refl, ◌∙◌, inl, inr, true, none, Bytes}
use nav.Run.Ensures.{Ensures, Ensures-mono}
use nav.Tag.{write_tag_file}
use nav.World.{World, Os}
use nav.Commands.Invariant.{IsWellFormed}
use nav.Commands.Isolation.{IsLocal, Durable, SamePaths}
use nav.Commands.Isolation.Dispatch.{dispatch-IsLocal}
use nav.Commands.Dispatch.{dispatch_command}
use nav.Loop.{round}
use nav.Loop.Reach.{Reaches, start, next, round-Kept, reachable-IsWellFormed}

-- what a command changes of the files: the tag file, to hold all tags
abbrev KeepsFiles : Os → World → World → Type 0
KeepsFiles os w w' = SamePaths w w' × Durable os w w'

-- the tag file holds the tags of the daemon
abbrev pub IsSaved : World → Type 0
IsSaved w = w.tagfile ≡ (write_tag_file true w.tags none).1

-- the tag file could be opened whenever the daemon wrote it
abbrev pub AlwaysOpens : {w w' : World} → Reaches w w' → Type 0
AlwaysOpens start = Unit
AlwaysOpens (next os old datagram before step) = (os.fopen_w ≡ true) × AlwaysOpens before

round-KeepsFiles :
    (os : Os) (w : World)
    → IsWellFormed w
    → (old datagram : Bytes) → Ensures (λ r. KeepsFiles os w r.1) (round os w old datagram)
round-KeepsFiles os w v =
    round-Kept os w (KeepsFiles os w) ((refl, refl), inl (refl, refl))
      λ pid args cmd_str.
        Ensures-mono (IsLocal os w pid) (KeepsFiles os w) (dispatch_command os w cmd_str pid args)
          (λ w' l. (l.same_paths, l.durable)) (dispatch-IsLocal os w v pid args cmd_str)

step-IsSaved :
    (os : Os) (w w' : World) → os.fopen_w ≡ true → Durable os w w' → IsSaved w → IsSaved w'
unfolding write_tag_file
step-IsSaved os w w' opens (inl (tags, file)) h = rw (file, tags) h
step-IsSaved os w w' opens (inr file) h = file ∙ rw opens refl

-- If the daemon's tag file can always be opened, and holds its tags at first, then it holds the tags in
-- every world that the rounds of the loop reach from a well-formed one.
pub reachable-IsSaved :
    {w w' : World} (r : Reaches w w') → AlwaysOpens r → IsWellFormed w → IsSaved w → IsSaved w'
reachable-IsSaved start opens v h = h
reachable-IsSaved {w' = w''} (next {w' = u} os old datagram before step) opens v h =
    let kept = rw step at (round-KeepsFiles os u (reachable-IsWellFormed v before) old datagram) in
    step-IsSaved os u w'' opens.0 kept.1 (reachable-IsSaved before opens.1 v h)

-- The rounds of the loop leave the path of the daemon's socket.
pub reachable-nav_socket_path :
    {w w' : World} → IsWellFormed w → Reaches w w' → w'.nav_socket_path ≡ w.nav_socket_path
reachable-nav_socket_path v start = refl
reachable-nav_socket_path v (next {w' = u} os old datagram before step) =
    let kept = rw step at (round-KeepsFiles os u (reachable-IsWellFormed v before) old datagram) in
    kept.0.0 ∙ reachable-nav_socket_path v before
