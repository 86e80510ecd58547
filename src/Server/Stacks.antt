-- ===== src/Server/Stacks.antt =====
-- `push`, `pop` and `reset` of src/daemon/commands.c as requests of a `Server`.
use mathlib.Core.List.{map}
use nav.Base.{
  ◌≡◌, refl, sym, ◌∙◌, ◌-◌, true, some, List, [], ◌∷◌, ◌++◌, Bytes, ℤ, length, length-append,
  Bool-cases, inl, inr, arith, ℕ,
}
use nav.Run.{ok}
use nav.Run.Ensures.{Returns}
use nav.CString.{strcmp}
use nav.CString.Bounds.{sprintf-fits}
use nav.Utils.{valid_path}
use nav.Utils.Words.{dup_word-blank}
use nav.ItemList.{ItemList, list_delete_node, list_prepend_node}
use nav.Shell.{Shell, Action, compare_action_path, cleanup_action}
use nav.Shell.Stack.{delete-head}
use nav.World.{World, Os, sendto}
use nav.Commands.Replies.{Args, get_shell, put_shell, ok_nul_reply, bad_reply}
use nav.Commands.Invariant.{IsWellFormed}
use nav.Server.Arguments.{FirstWord}
use nav.Commands.Tags.Parse.{IsName, IsName-IsWord}
use nav.Commands.Actions.{
  is_head, put_actions, push_action, push_arg, cmd_push, pop_action, cmd_pop, cmd_reset,
}
use nav.Commands.Actions.Keeps.{delete_all-empty}
use nav.Server.{pop_path, clear, push_path, set_stack, on_top, serve_shell}
use nav.Server.View.{view, stack_of, view-put_actions}
use nav.Server.Refines.{Gives, TopFits, Serves, reply-Gives, valid_in}

module _ (os : Os) (w : World) (v : IsWellFormed w) (pid : ℤ) (s : Shell)
    (e : get_shell w pid ≡ some s) where
  -- a new stack, with a reply after it or before it
  put-Gives :
      (as' : ItemList Action) (payload : Bytes)
      → Gives w pid
          (set_stack pid (some (map (λ a. a.path) as'.items)) (view w), some payload)
          (sendto (put_actions w s as') s.sun_path payload)
  put-Gives as' payload =
      reply-Gives os w v pid s e (put_actions w s as') payload _ (view-put_actions w pid s as' e)
        (unfold put_shell in refl)

  put-after_reply :
      (as' : ItemList Action) (payload : Bytes)
      → put_actions (sendto w s.sun_path payload) s as'
        ≡ sendto (put_actions w s as') s.sun_path payload
  unfolding put_shell sendto
  put-after_reply as' payload = refl

  is_head-on_top :
      (xs : List Action) (path : Bytes) → is_head xs path ≡ on_top path (map (λ a. a.path) xs)
  unfolding is_head strcmp
  is_head-on_top [] path = refl
  is_head-on_top (a ∷ xs) path = ground arith

  push_action-Gives :
      (path : Bytes)
      → os.node_alloc ≡ true
      → os.data_alloc ≡ true
      → Gives w pid
          (serve_shell (valid_in os) pid (push_path path) (some (stack_of s)) (view w))
          (push_action os w s path)
  unfolding push_action
  push_action-Gives path n d = elim (Bool-cases (valid_path (os.fstatat path))) [
    | inr bad ↦ rw bad (reply-Gives os w v pid s e w bad_reply (view w) refl refl)
    | inl valid ↦ elim (Bool-cases (is_head s.actions.items path)) [
      | inl top ↦
          rw (valid, top, sym (is_head-on_top s.actions.items path) ∙ top)
            (reply-Gives os w v pid s e w ok_nul_reply (view w) refl refl)
      | inr new ↦
          rw (valid, new, sym (is_head-on_top s.actions.items path) ∙ new, n, d)
            (unfold list_prepend_node in
              put-Gives (list_prepend_node s.actions (record { path = path })) ok_nul_reply)
    ]
  ]

  pub push-Serves :
      (path : Bytes) (args : Args)
      → IsName path
      → FirstWord path args
      → os.node_alloc ≡ true
      → os.data_alloc ≡ true
      → Serves os w v pid s e (push_path path) (cmd_push os w pid args)
  unfolding cmd_push push_arg
  push-Serves path args name (m, blank, same) n d =
      rw (same, e, dup_word-blank path b' ' m (IsName-IsWord path name) refl)
        (push_action-Gives path n d)

  pub pop-Serves :
      (args : Args)
      → TopFits (some (stack_of s))
      → Serves os w v pid s e pop_path (cmd_pop os w pid args)
  unfolding cmd_pop
  pop-Serves args fits = rw e (by_stack s.actions.items s.actions.n_items refl fits)
    where
      by_stack :
          (xs : List Action) (n : ℕ)
          → s.actions ≡ record { items = xs; n_items = n }
          → TopFits (some (map (λ a. a.path) xs))
          → Returns
              (Gives w pid
                (serve_shell (valid_in os) pid pop_path (some (map (λ a. a.path) xs)) (view w)))
              (pop_action w s xs)
      by_stack [] n is h =
          unfold pop_action in reply-Gives os w v pid s e w bad_reply (view w) refl refl
      by_stack (a ∷ xs) n is h =
          let line = a.path ++ b'\n' ∷ [] in
          let short =
            sprintf-fits 100 [] line (omega (arith, h, length-append a.path (b'\n' ∷ []))) in
          let deleted : list_delete_node compare_action_path cleanup_action s.actions a.path
              ≡ ok (0, record { items = xs; n_items = n - 1 }) =
            rw is (delete-head a xs n) in
          unfold pop_action in
          rw (short, deleted, put-after_reply (record { items = xs; n_items = n - 1 }) line)
            (put-Gives (record { items = xs; n_items = n - 1 }) line)

  pub reset-Serves : (args : Args) → Serves os w v pid s e clear (cmd_reset os w pid args)
  unfolding cmd_reset
  reset-Serves args =
      rw (e, delete_all-empty s.actions)
        (put-Gives (record { items = []; n_items = s.actions.n_items - length s.actions.items })
          ok_nul_reply)
