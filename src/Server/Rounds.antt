-- ===== src/Server/Rounds.antt =====
-- A round of the loop in src/daemon/main.c for a message of the client as the request of a `Server`.
use nav.Base.{
  ◌++◌, Option, codes, ℕ, ◌^◌, ◌≡◌, refl, ◌∙◌, ◌≤◌, ◌<◌, true, ◌∷◌, All, Bytes, drop, length, pos,
}
use nav.Run.{ok}
use nav.Run.Ensures.{Returns-eq}
use nav.CString.{print_nat}
use nav.Utils.Words.{printable-IsWord}
use nav.World.{World, Os}
use nav.Commands.Invariant.{IsWellFormed}
use nav.Commands.Isolation.{IsLocal}
use nav.Commands.Isolation.Dispatch.{dispatch-IsLocal}
use nav.Commands.Tags.Parse.{IsName}
use nav.Commands.Dispatch.{
  CommandId, register, unregister, add, delete, show, get, push, pop, actions, list, reset,
  cmd_name, dispatch_command,
}
use nav.Commands.Dispatch.Keeps.{dispatch-IsWellFormed}
use nav.Loop.{round}
use nav.Utils.Terminated.{IsTerminated-has_nul}
use nav.Commands.Replies.{Args}
use nav.Server.Arguments.{Carries, Suits, Suits-IsTerminated, args_at-Carries}
use nav.Loop.Message.{sentence}
use nav.Loop.Arguments.{round-args, args_at}
use nav.Server.{Server, Request, command_of, words_of_request, serve}
use nav.Server.View.{view}
use nav.Server.Refines.{Gives, HasRoom, valid_in}
use nav.Server.Serves.{dispatch-Serves}

-- a shell's request, and what the system answers while it is served
pub record Turn : Type 0 where
  pub os : Os
  pub pid : ℕ
  pub request : Request

abbrev pub message_of : Turn → Bytes
message_of t =
    sentence (print_nat t.pid ∷ cmd_name (command_of t.request) ∷ words_of_request t.request)

abbrev pub serve_turn : Turn → Server → Server × Option Bytes
serve_turn t a = serve (valid_in t.os) (pos t.pid) t.request a

-- the client can write the request, memory can be had, and the reply fits the buffer of the handler
pub record CanServe (t : Turn) (a : Server) : Type 0 where
  pub pid : t.pid < 2 ^ 31
  pub words : All IsName (words_of_request t.request)
  pub node_alloc : t.os.node_alloc ≡ true
  pub data_alloc : t.os.data_alloc ≡ true
  pub room : HasRoom (pos t.pid) t.request a

pub cmd_name-IsName : (c : CommandId) → IsName (cmd_name c)
unfolding cmd_name
cmd_name-IsName register = printable-IsWord (codes "register") refl
cmd_name-IsName unregister = printable-IsWord (codes "unregister") refl
cmd_name-IsName add = printable-IsWord (codes "add") refl
cmd_name-IsName delete = printable-IsWord (codes "delete") refl
cmd_name-IsName show = printable-IsWord (codes "show") refl
cmd_name-IsName get = printable-IsWord (codes "get") refl
cmd_name-IsName push = printable-IsWord (codes "push") refl
cmd_name-IsName pop = printable-IsWord (codes "pop") refl
cmd_name-IsName actions = printable-IsWord (codes "actions") refl
cmd_name-IsName list = printable-IsWord (codes "list") refl
cmd_name-IsName reset = printable-IsWord (codes "reset") refl

-- the loop goes on in a well-formed world, which is what the specification says
pub record Follows (w : World) (pid : ℕ) (r : Server × Option Bytes) (w' : World) : Type 0 where
  pub gives : Gives w (pos pid) r w'
  pub well_formed : IsWellFormed w'
  pub same_dir : w'.cache_dir ≡ w.cache_dir

module _ (w : World) (v : IsWellFormed w) (t : Turn) (can : CanServe t (view w)) where
  pub dispatch-Follows :
      (args : Args)
      → Carries t.request args
      → (w' : World) × (dispatch_command t.os w (cmd_name (command_of t.request)) (pos t.pid) args
          ≡ ok w')
        × Follows w t.pid (serve_turn t (view w)) w'
  dispatch-Follows args carries =
      let cmd_str = cmd_name (command_of t.request) in
      let (w', run, gives) = Returns-eq (dispatch_command t.os w cmd_str (pos t.pid) args) (
        dispatch-Serves t.os w v (pos t.pid) t.request args can.words carries can.node_alloc
          can.data_alloc can.room) in
      let is_local : IsLocal t.os w (pos t.pid) w' =
        rw run at (dispatch-IsLocal t.os w v (pos t.pid) args cmd_str) in
      (
        w',
        run,
        record {
          gives = gives;
          well_formed = rw run at (dispatch-IsWellFormed t.os w v (pos t.pid) args cmd_str);
          same_dir = is_local.same_dir;
        },
      )

  pub round-Follows :
      (old x : Bytes)
      → length (message_of t) ≤ 100
      → drop (length (message_of t)) old ≡ x
      → Suits t.request x
      → (w' : World) × (round t.os w old (message_of t) ≡ ok (true, w'))
        × Follows w t.pid (serve_turn t (view w)) w'
  round-Follows old x short behind suits =
      let ws = words_of_request t.request in
      let (w', run, follows) =
        dispatch-Follows (args_at (sentence ws ++ x))
          (args_at-Carries t.request x can.words suits) in
      (
        w',
        round-args t.os w t.pid (cmd_name (command_of t.request)) ws old x can.pid
              (cmd_name-IsName (command_of t.request)) short behind
              (IsTerminated-has_nul x (Suits-IsTerminated t.request x suits))
            ∙ rw run refl,
        follows,
      )
