-- ===== src/Commands/Registry/Session.antt =====
-- A shell's session: registered by `register`, gone after `unregister`.
use mathlib.Core.Option
use nav.Base.{◌≡◌, refl, true, none, some, List, [], ◌∷◌, ◌++◌, ℤ, Option-cases, inl, inr}
use nav.Run.{ok}
use nav.Run.Ensures.{Returns}
use nav.ItemList.{empty, get_first, list_append_node, list_get_node}
use nav.ItemList.Lookup.{get-append, get-erase_self, hit}
use nav.Shell.{Shell}
use nav.Shell.Stack.{shell_key}
use nav.World.{World, Os, Datagram, sendto}
use nav.Commands.Replies.{Args, get_shell, socket_path, ok_nul_reply}
use nav.Commands.Invariant.{IsWellFormed}
use nav.Commands.Registry.{cmd_register, register_from, new_shell, enrol, cmd_unregister, leave}
use nav.Commands.Registry.Keeps.{unregister_body}

-- a shell that has just registered
abbrev pub fresh_shell : World → ℤ → Shell
fresh_shell w pid = record { pid = pid; sun_path = socket_path w.cache_dir pid; actions = empty }

abbrev pub with_reply : World → Shell → List Datagram
with_reply w s = w.sent ++ record { to = s.sun_path; payload = ok_nul_reply } ∷ []

module _ (os : Os) (w : World) (pid : ℤ) (args : Args) where
  -- If memory can be had, `register` of an unknown process id adds a shell with an empty stack and the
  -- socket of that id, and replies OK to that socket.
  pub register-fresh :
      get_shell w pid ≡ none
      → os.node_alloc ≡ true
      → os.data_alloc ≡ true
      → Returns
          (λ w'.
            (get_shell w' pid ≡ some (fresh_shell w pid))
            × (w'.sent ≡ with_reply w (fresh_shell w pid)))
          (cmd_register os w pid args)
  unfolding cmd_register register_from new_shell enrol sendto list_append_node list_get_node
      get_first Option.or_else
  register-fresh e n d =
      rw (e, n, d)
        (
          rw (
            get-append shell_key pid w.shells.items (fresh_shell w pid ∷ []),
            e,
            hit shell_key (fresh_shell w pid) refl,
          ),
          refl,
        )

  -- `register` of a registered shell keeps its stack and all else, and replies OK again.
  pub register_again :
      (s : Shell)
      → get_shell w pid ≡ some s
      → cmd_register os w pid args ≡ ok (sendto w s.sun_path ok_nul_reply)
  unfolding cmd_register register_from
  register_again s e = rw e

  -- In a well-formed state `unregister` returns, and afterwards no shell has the process id.
  pub unregister-gone :
      IsWellFormed w → Returns (λ w'. get_shell w' pid ≡ none) (cmd_unregister os w pid args)
  unfolding cmd_unregister leave
  unregister-gone v = elim (Option-cases (get_shell w pid)) [
    | inl e ↦ rw e e
    | inr (s, e) ↦
        rw (e, unregister_body w pid s e v)
          (unfold list_get_node sendto in
            get-erase_self shell_key pid w.shells.items v.shells.distinct)
  ]
