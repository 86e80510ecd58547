-- ===== src/Commands/Isolation.antt =====
-- What a command of one shell leaves alone: the other shells, and the sockets of the other shells.
pub mod Answer
pub mod Registry
pub mod Tags
pub mod Actions
pub mod Dispatch
use nav.Base.{
  ℕ, ◌≡◌, refl, sym, ap, ◌∙◌, ◌≢◌, ◌⊎◌, inl, inr, ◌≤◌, Option, none, some, List, [], ◌∷◌, ◌++◌,
  append-nil, length, All, Bytes, ℤ, arith,
}
use nav.Run.{Run}
use nav.Run.Ensures.{Ensures}
use nav.Shell.{Shell}
use nav.World.{World, Os, Datagram, sendto}
use nav.Tag.{write_tag_file}
use nav.Commands.Replies.{get_shell, socket_path}

-- the paths of the daemon's socket and of its tag file stay
abbrev pub SamePaths : World → World → Type 0
SamePaths w w' = (w'.nav_socket_path ≡ w.nav_socket_path) × (w'.tagfile_path ≡ w.tagfile_path)

-- the tags and the tag file stay, or the tag file is written, if it can be opened
abbrev pub Durable : Os → World → World → Type 0
Durable os w w' =
    ((w'.tags ≡ w.tags) × (w'.tagfile ≡ w.tagfile))
    ⊎ (w'.tagfile ≡ (write_tag_file os.fopen_w w'.tags w.tagfile).1)

-- `w'` differs from `w` in the shell of `pid`, in the tags and in the tag file, at most
pub record IsQuiet (os : Os) (w : World) (pid : ℤ) (w' : World) : Type 0 where
  pub others : (q : ℤ) → q ≢ pid → get_shell w' q ≡ get_shell w q
  pub same_dir : w'.cache_dir ≡ w.cache_dir
  pub same_paths : SamePaths w w'
  pub durable : Durable os w w'
  pub silent : w'.sent ≡ w.sent

-- at most one datagram more was sent, and it went to the socket of `pid`
abbrev pub Replied : World → ℤ → World → Type 0
Replied w pid w' =
    (ds : List Datagram) × (w'.sent ≡ w.sent ++ ds)
    × (length ds ≤ 1)
    × All (λ d. d.to ≡ socket_path w.cache_dir pid) ds

pub record IsLocal (os : Os) (w : World) (pid : ℤ) (w' : World) : Type 0 where
  pub others : (q : ℤ) → q ≢ pid → get_shell w' q ≡ get_shell w q
  pub same_dir : w'.cache_dir ≡ w.cache_dir
  pub same_paths : SamePaths w w'
  pub durable : Durable os w w'
  pub replied : Replied w pid w'

module _ {os : Os} {w : World} {pid : ℤ} where
  pub IsQuiet-refl : IsQuiet os w pid w
  IsQuiet-refl = record {
    others = λ q h. refl;
    same_dir = refl;
    same_paths = (refl, refl);
    durable = inl (refl, refl);
    silent = refl;
  }

  pub IsQuiet-IsLocal : {w' : World} → IsQuiet os w pid w' → IsLocal os w pid w'
  IsQuiet-IsLocal {w'} h = record {
    others = h.others;
    same_dir = h.same_dir;
    same_paths = h.same_paths;
    durable = h.durable;
    replied = ([], h.silent ∙ sym (append-nil w.sent), omega arith, tt);
  }

  -- a quiet change, and a reply to the shell
  pub reply-IsLocal :
      {w' : World} (to payload : Bytes)
      → to ≡ socket_path w.cache_dir pid
      → IsQuiet os w pid w'
      → IsLocal os w pid (sendto w' to payload)
  unfolding sendto
  reply-IsLocal to payload addr h = record {
    others = h.others;
    same_dir = h.same_dir;
    same_paths = h.same_paths;
    durable = h.durable;
    replied = (
      record { to = to; payload = payload } ∷ [],
      ap (λ l. l ++ record { to = to; payload = payload } ∷ []) h.silent,
      omega arith,
      (addr, tt),
    );
  }
