-- ===== src/Loop/Buffer/Reached.antt =====
-- The loop in src/daemon/main.c over its receive buffer reaches what its rounds reach over any.
use nav.Base.{◌≡◌, refl, true, false, All, List, [], ◌∷◌, Bytes}
use nav.Run.{Run, ok, fault, hang, ◌>>=◌}
use nav.World.{World, Os}
use nav.Loop.{Round, round}
use nav.Loop.Reach.{Reaches, start, next}
use nav.Loop.Saved.{AlwaysOpens}
use nav.Loop.Buffer.{rounds, loop, left}

-- the tag file can be opened in every round
abbrev pub AllOpen : List (Os × Bytes) → Type 0
AllOpen = All (λ d. d.0.fopen_w ≡ true)

-- reached by rounds in each of which the tag file could be opened
abbrev pub ReachesOpen : World → World → Type 0
ReachesOpen u w = (r : Reaches u w) × AlwaysOpens r

-- a loop that goes on has gone on after its first round
first_round :
    (w' : World) (m : Run Round) (further : World → Run Round)
    → (m >>= λ x. elim x.0 [ true ↦ further x.1 | false ↦ ok x ]) ≡ ok (true, w')
    → (w'' : World) × (m ≡ ok (true, w'')) × (further w'' ≡ ok (true, w'))
first_round w' (ok (true, w'')) further h = (w'', refl, h)
first_round w' (ok (false, w'')) further h = absurd (cc h)
first_round w' fault further h = absurd (cc h)
first_round w' hang further h = absurd (cc h)

rounds-ReachesOpen :
    (ds : List (Os × Bytes)) (u w w' : World) (buf : Bytes)
    → AllOpen ds
    → ReachesOpen u w
    → rounds ds w buf ≡ ok (true, w')
    → ReachesOpen u w'
unfolding rounds
rounds-ReachesOpen [] u w w' buf open_all r run = let same : w ≡ w' = cc run in rw (← same) r
rounds-ReachesOpen ((os, datagram) ∷ rest) u w w' buf open_all (r, opens) run =
    let (w'', step, further) =
      first_round w' (round os w buf datagram) (λ x. rounds rest x (left w buf datagram)) run in
    rounds-ReachesOpen rest u w'' w' (left w buf datagram) open_all.1
      (next os buf datagram r step, (open_all.0, opens)) further

-- If the tag file can be opened in every round, a world to which the loop goes on is one that rounds
-- reach in which it can be opened.
pub loop-ReachesOpen :
    (behind : Bytes) (ds : List (Os × Bytes)) (w w' : World)
    → AllOpen ds
    → loop behind ds w ≡ ok (true, w')
    → ReachesOpen w w'
unfolding loop
loop-ReachesOpen behind ds w w' open_all run =
    rounds-ReachesOpen ds w w w' _ open_all (start, tt) run
