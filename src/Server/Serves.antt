-- ===== src/Server/Serves.antt =====
-- `dispatch_command` of src/daemon/commands.c as the request of a `Server`.
use mathlib.Core.Option
use nav.Base.{
  Option-cases, inl, inr, ◌≡◌, refl, ap, sym, ◌-◌, true, Option, none, some, [], ◌∷◌, append-nil,
  All, ℤ,
}
use nav.Run.Ensures.{Returns}
use nav.ItemList.{list_get_node, list_append_node, get_first}
use nav.ItemList.Lookup.{get-append, get-append_ne, get-erase_ne, get-erase_self, erase, hit}
use nav.Shell.{Shell}
use nav.Shell.Stack.{shell_key}
use nav.World.{World, Os, sendto}
use nav.Commands.Replies.{Args, get_shell, ok_reply, ok_nul_reply}
use nav.Commands.Invariant.{IsWellFormed}
use nav.Commands.Registry.{cmd_register, register_from, new_shell, enrol, cmd_unregister}
use nav.Commands.Registry.Keeps.{unregister_body}
use nav.Commands.Tags.Parse.{IsName}
use nav.Commands.Tags.{cmd_add, cmd_delete, cmd_get, cmd_list, cmd_show}
use nav.Commands.Actions.{cmd_push, cmd_pop, cmd_actions, cmd_reset}
use nav.Commands.Dispatch.{cmd_name, cmd_func, dispatch_command}
use nav.Commands.Dispatch.Table.{dispatch-name}
use nav.Server.{
  Request, join, quit, pop_path, clear, history, all_names, all_paths, bind, unbind, find,
  push_path, command_of, words_of_request, set_stack, serve_shell, serve,
}
use nav.Server.View.{view, stack_of, view-set_stack}
use nav.Server.Listings.{actions-Serves, list-Serves, show-Serves}
use nav.Server.Arguments.{Carries}
use nav.Server.Names.{find-Serves, bind-Serves, unbind-Serves}
use nav.Server.Stacks.{push-Serves, pop-Serves, reset-Serves}
use nav.Server.Refines.{Gives, HasRoom, Serves, valid_in, reply-Gives}

module _ (os : Os) (w : World) (v : IsWellFormed w) (pid : ℤ) where
  enrol-Gives :
      get_shell w pid ≡ none
      → Gives w pid
          (set_stack pid (some []) (view w), some ok_nul_reply)
          (enrol w (new_shell w pid))
  unfolding enrol new_shell sendto list_append_node list_get_node get_first Option.or_else
  enrol-Gives e = (
    view-set_stack w (enrol w (new_shell w pid)) pid (some []) refl
        (λ q ne.
          unfold list_append_node list_get_node in
          get-append_ne shell_key q (new_shell w pid) w.shells.items (λ eq. ne (sym eq)))
        (rw
          (
            get-append shell_key pid w.shells.items (new_shell w pid ∷ []),
            e,
            hit shell_key (new_shell w pid) refl,
          )
          refl),
    refl,
  )

  register-Serves :
      (o : Option Shell) (args : Args)
      → get_shell w pid ≡ o
      → os.node_alloc ≡ true
      → os.data_alloc ≡ true
      → Returns
          (Gives w pid (serve_shell (valid_in os) pid join (Option.map stack_of o) (view w)))
          (cmd_register os w pid args)
  unfolding cmd_register register_from
  register-Serves none args e n d = rw (e, n, d) (enrol-Gives e)
  register-Serves (some s) args e n d =
      rw e (reply-Gives os w v pid s e w ok_nul_reply (view w) refl refl)

  abbrev without : World
  without = record w {
    state = record w.state {
      shells = record {
        items = erase shell_key pid w.shells.items;
        n_items = w.shells.n_items - 1;
      };
    };
  }

  unregister-Serves :
      (s : Shell) (e : get_shell w pid ≡ some s) (args : Args)
      → Serves os w v pid s e quit (cmd_unregister os w pid args)
  unfolding cmd_unregister
  unregister-Serves s e args =
      rw (e, unregister_body w pid s e v)
        (reply-Gives os w v pid s e without ok_reply _
          (view-set_stack w without pid none refl
            (λ q ne.
              unfold list_get_node in
              get-erase_ne shell_key pid q w.shells.items (λ eq. ne (sym eq)))
            (unfold list_get_node in
              ap (Option.map stack_of)
                (get-erase_self shell_key pid w.shells.items v.shells.distinct)))
          refl)

  unregistered-Gives : Gives w pid (view w, none) w
  unregistered-Gives = (refl, sym (append-nil w.sent))

  -- a shell that has not registered gets no answer
  unregistered-Serves :
      (r : Request) (args : Args)
      → get_shell w pid ≡ none
      → os.node_alloc ≡ true
      → os.data_alloc ≡ true
      → Returns
          (Gives w pid (serve_shell (valid_in os) pid r none (view w)))
          (cmd_func (command_of r) os w pid args)
  unfolding cmd_func command_of cmd_list cmd_show cmd_unregister cmd_pop cmd_actions cmd_reset
      cmd_add cmd_delete cmd_get cmd_push
  unregistered-Serves join args e n d = register-Serves none args e n d
  unregistered-Serves quit args e n d = rw e unregistered-Gives
  unregistered-Serves pop_path args e n d = rw e unregistered-Gives
  unregistered-Serves clear args e n d = rw e unregistered-Gives
  unregistered-Serves history args e n d = rw e unregistered-Gives
  unregistered-Serves all_names args e n d = rw e unregistered-Gives
  unregistered-Serves all_paths args e n d = rw e unregistered-Gives
  unregistered-Serves (bind tag path) args e n d = rw e unregistered-Gives
  unregistered-Serves (unbind tag) args e n d = rw e unregistered-Gives
  unregistered-Serves (find tag) args e n d = rw e unregistered-Gives
  unregistered-Serves (push_path path) args e n d = rw e unregistered-Gives

  registered-Serves :
      (r : Request) (s : Shell) (e : get_shell w pid ≡ some s) (args : Args)
      → All IsName (words_of_request r)
      → Carries r args
      → os.node_alloc ≡ true
      → os.data_alloc ≡ true
      → HasRoom pid r (view w)
      → Serves os w v pid s e r (cmd_func (command_of r) os w pid args)
  unfolding cmd_func command_of words_of_request
  registered-Serves join s e args h c n d room = register-Serves (some s) args e n d
  registered-Serves quit s e args h c n d room = unregister-Serves s e args
  registered-Serves pop_path s e args h c n d room = pop-Serves os w v pid s e args (rw e at room)
  registered-Serves clear s e args h c n d room = reset-Serves os w v pid s e args
  registered-Serves history s e args h c n d room =
      actions-Serves os w v pid s e args (rw e at room)
  registered-Serves all_names s e args h c n d room = list-Serves os w v pid s e args room
  registered-Serves all_paths s e args h c n d room = show-Serves os w v pid s e args room
  registered-Serves (bind tag path) s e args h (m, b, same) n d room =
      rw same (bind-Serves os w v pid s e tag path m h.0 h.1.0 b n d)
  registered-Serves (unbind tag) s e args h c n d room = unbind-Serves os w v pid s e tag args h.0 c
  registered-Serves (find tag) s e args h c n d room =
      find-Serves os w v pid s e tag args h.0 c room
  registered-Serves (push_path path) s e args h c n d room =
      push-Serves os w v pid s e path args h.0 c n d

  -- In a well-formed state `dispatch_command` answers the command of any request as the specification
  -- does: it returns, what the daemon holds afterwards is what the specification holds, and it sends
  -- exactly the reply of the specification, to the shell's socket. The words of the request are nonempty,
  -- without NUL, space and newline, memory can be had, and the reply fits the handler's buffer. The
  -- arguments of `add` are its two words with a space behind each, a NUL, and further on a space or newline; those of `delete`,
  -- `get` and `push` begin with the word and a space, and have a space or newline further on; the other commands take any arguments or none.
  pub dispatch-Serves :
      (r : Request) (args : Args)
      → All IsName (words_of_request r)
      → Carries r args
      → os.node_alloc ≡ true
      → os.data_alloc ≡ true
      → HasRoom pid r (view w)
      → Returns
          (Gives w pid (serve (valid_in os) pid r (view w)))
          (dispatch_command os w (cmd_name (command_of r)) pid args)
  unfolding serve
  dispatch-Serves r args h c n d room =
      rw (dispatch-name os w pid args (command_of r)) (elim (Option-cases (get_shell w pid)) [
        | inl e ↦ rw e (unregistered-Serves r args e n d)
        | inr (s, e) ↦ rw e (registered-Serves r s e args h c n d room)
      ])
