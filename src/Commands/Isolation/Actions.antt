-- ===== src/Commands/Isolation/Actions.antt =====
-- The stack commands of src/daemon/commands.c, and the other shells.
use nav.Base.{ℕ, ◌≡◌, refl, ◌&&◌, none, some, List, [], ◌∷◌, Bytes, ℤ, Bool-cases, inl, inr}
use nav.Run.Ensures.{Ensures, Ensures-bind}
use nav.CString.{sprintf}
use nav.CString.Laws.{sprintf-ends}
use nav.Utils.{dup_word, valid_path}
use nav.Utils.Words.{IsWord, dup_word-IsWord}
use nav.Shell.{Shell, Action}
use nav.Shell.Stack.{delete-head}
use nav.World.{World, Os, sendto}
use nav.Commands.Replies.{Args, get_shell, put_shell}
use nav.Commands.Invariant.{IsWellFormed, with_shell-cases}
use nav.Commands.Actions.{
  is_head, push_action, push_arg, cmd_push, pop_action, cmd_pop, actions_loop, cmd_actions,
  cmd_reset,
}
use nav.Commands.Actions.Keeps.{actions_loop-ends, delete_all-empty}
use nav.Commands.Isolation.{IsLocal, reply-IsLocal}
use nav.Commands.Isolation.Answer.{put_shell-IsQuiet, addr, Local, unchanged, answer}

module _ (os : Os) (w : World) (v : IsWellFormed w) (pid : ℤ) where
  push_action-IsLocal :
      (s : Shell) (path : Bytes)
      → get_shell w pid ≡ some s
      → IsLocal os w pid (push_action os w s path)
  unfolding push_action
  push_action-IsLocal s path e = elim (Bool-cases (valid_path (os.fstatat path))) [
    | inr f ↦ rw f (answer os w v pid s _ e)
    | inl f ↦ rw f (elim (Bool-cases (is_head s.actions.items path)) [
      | inl h ↦ rw h (answer os w v pid s _ e)
      | inr h ↦ rw h (elim (Bool-cases (os.node_alloc && os.data_alloc)) [
        | inr m ↦ rw m (answer os w v pid s _ e)
        | inl m ↦
            rw m (reply-IsLocal s.sun_path _ (addr w pid s e v) (put_shell-IsQuiet w pid s e _))
      ])
    ])
  ]

  push_arg-IsLocal :
      (s : Shell) (args : Args)
      → get_shell w pid ≡ some s
      → Ensures (IsLocal os w pid) (push_arg os w s args)
  unfolding push_arg
  push_arg-IsLocal s none e = unchanged os w v pid
  push_arg-IsLocal s (some p) e =
      Ensures-bind IsWord (IsLocal os w pid) (dup_word p) _ (dup_word-IsWord p)
        λ path _. push_action-IsLocal s path e

  pub push-IsLocal : (args : Args) → Ensures (IsLocal os w pid) (cmd_push os w pid args)
  unfolding cmd_push
  push-IsLocal args =
      with_shell-cases (Local os w v pid) w pid _ (unchanged os w v pid)
        λ s e. push_arg-IsLocal s args e

  pop_action-IsLocal :
      (s : Shell) (xs : List Action) (n : ℕ)
      → s.actions ≡ record { items = xs; n_items = n }
      → get_shell w pid ≡ some s
      → Ensures (IsLocal os w pid) (pop_action w s xs)
  unfolding pop_action put_shell sendto
  pop_action-IsLocal s [] n is e = answer os w v pid s _ e
  pop_action-IsLocal s (a ∷ xs) n is e =
      Ensures-bind (λ _. Unit) (IsLocal os w pid) (sprintf _ _ _) _ (sprintf-ends _ _ _)
        λ buf _.
          rw (is, delete-head a xs n)
            (reply-IsLocal s.sun_path buf (addr w pid s e v) (put_shell-IsQuiet w pid s e _))

  pub pop-IsLocal : (args : Args) → Ensures (IsLocal os w pid) (cmd_pop os w pid args)
  unfolding cmd_pop
  pop-IsLocal args =
      with_shell-cases (Local os w v pid) w pid _ (unchanged os w v pid)
        λ s e. pop_action-IsLocal s s.actions.items s.actions.n_items refl e

  pub actions-IsLocal : (args : Args) → Ensures (IsLocal os w pid) (cmd_actions os w pid args)
  unfolding cmd_actions
  actions-IsLocal args = with_shell-cases (Local os w v pid) w pid _ (unchanged os w v pid) λ s e.
      Ensures-bind (λ _. Unit) (IsLocal os w pid) (actions_loop s.actions.items 1 []) _
        (actions_loop-ends s.actions.items 1 []) λ buf _. answer os w v pid s buf e

  pub reset-IsLocal : (args : Args) → Ensures (IsLocal os w pid) (cmd_reset os w pid args)
  unfolding cmd_reset
  reset-IsLocal args = with_shell-cases (Local os w v pid) w pid _ (unchanged os w v pid) λ s e.
      rw (delete_all-empty s.actions)
        (reply-IsLocal s.sun_path _ (addr w pid s e v) (put_shell-IsQuiet w pid s e _))
