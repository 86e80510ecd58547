-- ===== src/Commands/Isolation/Tags.antt =====
-- The tag commands of src/daemon/commands.c, and the other shells.
use nav.Base.{◌≡◌, refl, Option, none, some, [], Bytes, ℤ, Bool-cases, inl, inr}
use nav.Run.{Run}
use nav.Run.Ensures.{Ensures, Ensures-bind}
use nav.CString.{Token, mem, strtok_r, sprintf}
use nav.CString.Laws.{strtok_r-ends, sprintf-ends}
use nav.Utils.{dup_word, valid_path}
use nav.Utils.Words.{IsWord, dup_word-IsWord}
use nav.ItemList.{ItemList}
use nav.ItemList.Maps.{delete-erase}
use nav.Tag.{Tag, cleanup_tag}
use nav.Tag.Keys.{tag_key}
use nav.Shell.{Shell}
use nav.World.{World, Os}
use nav.Commands.Replies.{Args, get_shell}
use nav.Commands.Invariant.{IsWellFormed, with_shell-cases}
use nav.Commands.Tags.{
  AddArgs, too_many, too_few, pair, get_tag, add_args, added, add_tag, cmd_add, delete_tag,
  tag_token, tag_arg, cmd_delete, show_loop, cmd_show, list_loop, cmd_list, send_path, cmd_get,
  space,
}
use nav.Commands.Tags.Keeps.{add_args-HasWords, show_loop-ends, list_loop-ends, HasWords}
use nav.Commands.Isolation.{IsLocal, reply-IsLocal}
use nav.Commands.Isolation.Answer.{addr, save-IsQuiet, Local, unchanged, answer}

module _ (os : Os) (w : World) (v : IsWellFormed w) (pid : ℤ) where
  added-IsLocal :
      (s : Shell) (o : Option (ItemList Tag))
      → get_shell w pid ≡ some s
      → IsLocal os w pid (added os w s o)
  unfolding added
  added-IsLocal s none e = answer os w v pid s _ e
  added-IsLocal s (some tags) e =
      reply-IsLocal s.sun_path _ (addr w pid s e v) (save-IsQuiet os w pid tags)

  add_tag-IsLocal :
      (s : Shell) (a : AddArgs) → get_shell w pid ≡ some s → IsLocal os w pid (add_tag os w s a)
  unfolding add_tag
  add_tag-IsLocal s (pair tag path) e = elim (Bool-cases (valid_path (os.fstatat path))) [
    | inl v ↦ rw v (added-IsLocal s _ e)
    | inr bad ↦ rw bad (answer os w v pid s _ e)
  ]
  add_tag-IsLocal s too_many e = answer os w v pid s _ e
  add_tag-IsLocal s too_few e = answer os w v pid s _ e

  pub add-IsLocal : (args : Args) → Ensures (IsLocal os w pid) (cmd_add os w pid args)
  unfolding cmd_add
  add-IsLocal args = with_shell-cases (Local os w v pid) w pid _ (unchanged os w v pid) λ s e.
      Ensures-bind HasWords (IsLocal os w pid) (add_args args) _ (add_args-HasWords args)
        λ a _. add_tag-IsLocal s a e

  tag_arg-IsLocal :
      (args : Args) (body : Bytes → Run World)
      → ((tag : Bytes) → Ensures (IsLocal os w pid) (body tag))
      → Ensures (IsLocal os w pid) (tag_arg w args body)
  unfolding tag_arg tag_token
  tag_arg-IsLocal args body each =
      Ensures-bind (λ _. Unit) (IsLocal os w pid) (strtok_r args space) _ (strtok_r-ends _ _)
        λ o _. on_token o
    where
      on_token : (o : Option Token) → Ensures (IsLocal os w pid) (tag_token w body o)
      on_token none = unchanged os w v pid
      on_token (some t) =
          Ensures-bind IsWord (IsLocal os w pid) (dup_word (mem t)) body (dup_word-IsWord (mem t))
            λ tag _. each tag

  delete_tag-IsLocal :
      (s : Shell) (tag : Bytes) (o : Option Tag)
      → get_shell w pid ≡ some s
      → get_tag w tag ≡ o
      → Ensures (IsLocal os w pid) (delete_tag os w s tag o)
  unfolding delete_tag cleanup_tag
  delete_tag-IsLocal s tag none e there = answer os w v pid s _ e
  delete_tag-IsLocal s tag (some t) e there =
      rw (delete-erase tag_key cleanup_tag tag w.tags t there refl)
        (reply-IsLocal s.sun_path _ (addr w pid s e v) (save-IsQuiet os w pid _))

  pub delete-IsLocal : (args : Args) → Ensures (IsLocal os w pid) (cmd_delete os w pid args)
  unfolding cmd_delete
  delete-IsLocal args =
      with_shell-cases (Local os w v pid) w pid _ (unchanged os w v pid)
        λ s e. tag_arg-IsLocal args _ λ tag. delete_tag-IsLocal s tag (get_tag w tag) e refl

  send_path-IsLocal :
      (s : Shell) (o : Option Tag)
      → get_shell w pid ≡ some s
      → Ensures (IsLocal os w pid) (send_path w s o)
  unfolding send_path
  send_path-IsLocal s none e = answer os w v pid s _ e
  send_path-IsLocal s (some t) e =
      Ensures-bind (λ _. Unit) (IsLocal os w pid) (sprintf _ _ _) _ (sprintf-ends _ _ _)
        λ buf _. answer os w v pid s buf e

  pub get-IsLocal : (args : Args) → Ensures (IsLocal os w pid) (cmd_get os w pid args)
  unfolding cmd_get
  get-IsLocal args =
      with_shell-cases (Local os w v pid) w pid _ (unchanged os w v pid)
        λ s e. tag_arg-IsLocal args _ λ tag. send_path-IsLocal s (get_tag w tag) e

  pub show-IsLocal : (args : Args) → Ensures (IsLocal os w pid) (cmd_show os w pid args)
  unfolding cmd_show
  show-IsLocal args = with_shell-cases (Local os w v pid) w pid _ (unchanged os w v pid) λ s e.
      Ensures-bind (λ _. Unit) (IsLocal os w pid) (show_loop w.tags.items 0 []) _
        (show_loop-ends w.tags.items 0 []) λ buf _. answer os w v pid s buf e

  pub list-IsLocal : (args : Args) → Ensures (IsLocal os w pid) (cmd_list os w pid args)
  unfolding cmd_list
  list-IsLocal args = with_shell-cases (Local os w v pid) w pid _ (unchanged os w v pid) λ s e.
      Ensures-bind (λ _. Unit) (IsLocal os w pid) (list_loop w.tags.items []) _
        (list_loop-ends w.tags.items []) λ buf _. answer os w v pid s _ e
