-- ===== src/Server/Refines.antt =====
-- The handlers of src/daemon/commands.c as the operations of a `Server`.
use nav.Base.{◌≡◌, refl, ◌≤◌, ◌<◌, Bool, Option, none, some, List, [], ◌∷◌, ◌++◌, Bytes, ℤ, length}
use nav.Run.{Run}
use nav.Run.Ensures.{Returns}
use nav.Utils.{valid_path}
use nav.Shell.{Shell}
use nav.World.{World, Os, Datagram, sendto}
use nav.Commands.Replies.{get_shell, reply_to, socket_path}
use nav.Commands.Invariant.{IsWellFormed}
use nav.Commands.Isolation.Answer.{addr}
use nav.Commands.Tags.Get.{FitsGet}
use nav.Server.{
  Server, Request, pop_path, history, all_names, all_paths, joined, path_lines, find, numbered,
  serve_shell,
}
use nav.Server.View.{view, stack_of}

abbrev pub replies : Bytes → Option Bytes → List Datagram
replies path none = []
replies path (some payload) = reply_to path payload

-- the world behind a request, with this state of the server and this reply
abbrev pub Gives : World → ℤ → Server × Option Bytes → World → Type 0
Gives w pid r w' = (view w' ≡ r.0) × (w'.sent ≡ w.sent ++ replies (socket_path w.cache_dir pid) r.1)

-- the paths that are there
abbrev pub valid_in : Os → Bytes → Bool
valid_in os path = valid_path (os.fstatat path)

abbrev pub TopFits : Option (List Bytes) → Type 0
TopFits (some (p ∷ rest)) = length p ≤ 98
TopFits _ = Unit

abbrev pub ListFits : Option (List Bytes) → Type 0
ListFits (some stack) = length (numbered 1 stack) < 1024
ListFits none = Unit

-- the reply fits the buffer of the handler
abbrev pub HasRoom : ℤ → Request → Server → Type 0
HasRoom pid (find tag) a = FitsGet (a.paths tag)
HasRoom pid pop_path a = TopFits (a.stacks pid)
HasRoom pid history a = ListFits (a.stacks pid)
HasRoom pid all_names a = length (joined a.names) < 255
HasRoom pid all_paths a = length (path_lines a.paths a.names) ≤ 2048
HasRoom pid _ a = Unit

module _ (os : Os) (w : World) (v : IsWellFormed w) (pid : ℤ) (s : Shell)
    (e : get_shell w pid ≡ some s) where
  -- what a registered shell gets
  abbrev pub Serves : Request → Run World → Type 0
  Serves r = Returns (Gives w pid (serve_shell (valid_in os) pid r (some (stack_of s)) (view w)))

  pub reply-Gives :
      (w' : World) (payload : Bytes) (a : Server)
      → view w' ≡ a
      → w'.sent ≡ w.sent
      → Gives w pid (a, some payload) (sendto w' s.sun_path payload)
  unfolding sendto
  reply-Gives w' payload a same silent = (same, rw (silent, addr w pid s e v) refl)
