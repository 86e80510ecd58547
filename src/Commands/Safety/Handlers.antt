-- ===== src/Commands/Safety/Handlers.antt =====
-- When each handler of src/daemon/commands.c returns.
use nav.Base.{
  ℕ, ◌≡◌, refl, ◌≤◌, Option, none, some, List, [], ◌∷◌, ◌++◌, length, length-append, lt→ltb, All,
  Bytes, ℤ, arith, Option-cases, inl, inr,
}
use nav.Run.{Run}
use nav.Run.Ensures.{Returns-bind}
use nav.CString.{Token, mem, strtok_r}
use nav.CString.Bounds.{sprintf-fits}
use nav.Utils.{dup_word}
use nav.Utils.Words.{IsWord}
use nav.Utils.Terminated.{
  IsTerminated, NoneOrSafe, IsTerminated-IsRest, strtok_r-Returns, dup_word-Returns,
}
use nav.ItemList.Maps.{delete-erase}
use nav.ItemList.Members.{All-get_node}
use nav.Tag.{Tag, cleanup_tag}
use nav.Tag.Keys.{tag_key}
use nav.Shell.{Shell, Action}
use nav.Shell.Stack.{shell_key, delete-head}
use nav.World.{World, Os}
use nav.Commands.Replies.{Args, get_shell}
use nav.Commands.Invariant.{with_shell-cases}
use nav.Commands.Tags.{
  space, get_tag, add_args, first_token, second_token, cmd_add, delete_tag, cmd_delete, tag_arg,
  tag_token, send_path, cmd_get, cmd_show, cmd_list,
}
use nav.Commands.Tags.Listing.{list-spaced, show-shown}
use nav.Commands.Actions.{push_arg, cmd_push, pop_action, cmd_pop, cmd_actions}
use nav.Commands.Actions.Listing.{actions-stack}
use nav.Commands.Dispatch.{push}
use nav.Commands.Safety.{Fits, ShellFits, SafeArgs, Done}

second-Done : (tag : Bytes) (o : Option Token) → NoneOrSafe o → Done (second_token tag o)
unfolding second_token
second-Done tag none h = tt
second-Done tag (some t) (b, m) =
    Returns-bind IsWord (λ _. Unit) (dup_word (mem t)) _ (dup_word-Returns (mem t) b)
      λ path _.
        Returns-bind NoneOrSafe (λ _. Unit) (strtok_r (some t.save) space) _
          (strtok_r-Returns t.save space (refl, refl) m) λ o _. tt

first-Done : (o : Option Token) → NoneOrSafe o → Done (first_token o)
unfolding first_token
first-Done none h = tt
first-Done (some t) (b, m) =
    Returns-bind IsWord (λ _. Unit) (dup_word (mem t)) _ (dup_word-Returns (mem t) b)
      λ tag _.
        Returns-bind NoneOrSafe (λ _. Unit) (strtok_r (some t.save) space) _
          (strtok_r-Returns t.save space (refl, refl) m) λ o h. second-Done tag o h

tag_arg-Done :
    (w : World) (m : Bytes) (body : Bytes → Run World)
    → IsTerminated m
    → ((tag : Bytes) → Done (body tag))
    → Done (tag_arg w (some m) body)
unfolding tag_arg
tag_arg-Done w m body h each =
    Returns-bind NoneOrSafe (λ _. Unit) (strtok_r (some m) space) _
      (strtok_r-Returns m space (refl, refl) (IsTerminated-IsRest m h)) λ o safe. on_token o safe
  where
    on_token : (o : Option Token) → NoneOrSafe o → Done (tag_token w body o)
    on_token none safe = tt
    on_token (some t) (b, _) =
        Returns-bind IsWord (λ _. Unit) (dup_word (mem t)) body (dup_word-Returns (mem t) b)
          λ tag _. each tag

module _ (os : Os) (w : World) (pid : ℤ) where
  pub add-Done : (m : Bytes) → IsTerminated m → Done (cmd_add os w pid (some m))
  unfolding cmd_add add_args
  add-Done m h = with_shell-cases Done w pid _ tt λ s _.
      Returns-bind (λ _. Unit) (λ _. Unit) (add_args (some m)) _
        (Returns-bind NoneOrSafe (λ _. Unit) (strtok_r (some m) space) _
          (strtok_r-Returns m space (refl, refl) (IsTerminated-IsRest m h))
          λ o safe. first-Done o safe)
        λ a _. tt

  delete_tag-Done :
      (s : Shell) (tag : Bytes) (o : Option Tag)
      → get_tag w tag ≡ o
      → Done (delete_tag os w s tag o)
  unfolding delete_tag cleanup_tag
  delete_tag-Done s tag none e = tt
  delete_tag-Done s tag (some t) e = rw (delete-erase tag_key cleanup_tag tag w.tags t e refl) tt

  pub delete-Done : (m : Bytes) → IsTerminated m → Done (cmd_delete os w pid (some m))
  unfolding cmd_delete
  delete-Done m h =
      with_shell-cases Done w pid _ tt
        λ s _. tag_arg-Done w m _ h λ tag. delete_tag-Done s tag (get_tag w tag) refl

  send_path-Done :
      (s : Shell) (tag : Bytes) (o : Option Tag)
      → Fits w
      → get_tag w tag ≡ o
      → Done (send_path w s o)
  unfolding send_path
  send_path-Done s tag none fits e = tt
  send_path-Done s tag (some t) fits e =
      let short : length t.path ≤ 98 =
        All-get_node tag_key (λ u. length u.path ≤ 98) w.tags tag e fits.targets in
      rw
        (sprintf-fits 100 [] (t.path ++ b'\n' ∷ [])
          (omega (arith, short, length-append t.path (b'\n' ∷ []))))
        tt

  pub get-Done : (m : Bytes) → Fits w → IsTerminated m → Done (cmd_get os w pid (some m))
  unfolding cmd_get
  get-Done m fits h =
      with_shell-cases Done w pid _ tt
        λ s _. tag_arg-Done w m _ h λ tag. send_path-Done s tag (get_tag w tag) fits refl

  pub push-Done : (args : Args) → SafeArgs args (some push) → Done (cmd_push os w pid args)
  unfolding cmd_push push_arg
  push-Done none h = with_shell-cases Done w pid _ tt λ s _. tt
  push-Done (some m) h =
      with_shell-cases Done w pid _ tt
        λ s _. Returns-bind IsWord (λ _. Unit) (dup_word m) _ (dup_word-Returns m h) λ path _. tt

  pop_action-Done :
      (s : Shell) (xs : List Action) (n : ℕ)
      → s.actions ≡ record { items = xs; n_items = n }
      → All (λ a. length a.path ≤ 98) xs
      → Done (pop_action w s xs)
  unfolding pop_action
  pop_action-Done s [] n e h = tt
  pop_action-Done s (a ∷ xs) n e h =
      rw
        (
          sprintf-fits 100 [] (a.path ++ b'\n' ∷ [])
              (omega (arith, h.0, length-append a.path (b'\n' ∷ []))),
          e,
          delete-head a xs n,
        )
        tt

module _ (os : Os) (w : World) (pid : ℤ) (args : Args) (fits : Fits w) where
  pub pop-Done : Done (cmd_pop os w pid args)
  unfolding cmd_pop
  pop-Done = with_shell-cases Done w pid _ tt λ s e.
      pop_action-Done os w pid s s.actions.items s.actions.n_items refl
        (All-get_node shell_key ShellFits w.shells pid e fits.stacks).popped

  pub list-Done : Done (cmd_list os w pid args)
  list-Done = elim (Option-cases (get_shell w pid)) [
    | inl e ↦ unfold cmd_list in rw e tt
    | inr (s, e) ↦ rw (list-spaced os w pid args s e, lt→ltb _ _ fits.names) tt
  ]

  pub show-Done : Done (cmd_show os w pid args)
  show-Done = elim (Option-cases (get_shell w pid)) [
    | inl e ↦ unfold cmd_show in rw e tt
    | inr (s, e) ↦ rw (show-shown os w pid args s e fits.lines) tt
  ]

  pub actions-Done : Done (cmd_actions os w pid args)
  actions-Done = elim (Option-cases (get_shell w pid)) [
    | inl e ↦ unfold cmd_actions in rw e tt
    | inr (s, e) ↦
        let small = (All-get_node shell_key ShellFits w.shells pid e fits.stacks).listed in
        rw (actions-stack os w pid args s e, lt→ltb _ _ small) tt
  ]
