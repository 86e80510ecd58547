-- ===== src/Commands/Isolation/Answer.antt =====
-- Changes by a handler of src/daemon/commands.c that are local to the shell that sent the command.
use nav.Base.{◌≢◌, inl, inr, ◌≡◌, refl, sym, ap, ◌∙◌, some, Bytes, ℤ}
use nav.Run.{Run, ok}
use nav.Run.Ensures.{Ensures}
use nav.ItemList.{ItemList, list_get_node, set_node}
use nav.ItemList.Lookup.{get-set_ne}
use nav.Tag.{Tag}
use nav.Shell.{Shell, Action}
use nav.Shell.Stack.{shell_key}
use nav.World.{World, Os, sendto}
use nav.Commands.Replies.{get_shell, put_shell, socket_path}
use nav.Commands.Invariant.{IsWellFormed, found-IsShell, pid-get_shell}
use nav.Commands.Tags.{put_tags, save_tags}
use nav.Commands.Actions.{put_actions}
use nav.Commands.Isolation.{IsQuiet, IsLocal, IsQuiet-refl, IsQuiet-IsLocal, reply-IsLocal}

module _ (w : World) (pid : ℤ) (s : Shell) (e : get_shell w pid ≡ some s) where
  pub get-put_actions_ne :
      (as' : ItemList Action) (q : ℤ) → q ≢ pid → get_shell (put_actions w s as') q ≡ get_shell w q
  unfolding put_shell set_node list_get_node
  get-put_actions_ne as' q ne =
      get-set_ne shell_key s.pid q (record s { actions = as' }) w.shells.items refl
        (λ same. ne (sym (sym (pid-get_shell w pid e) ∙ same)))

  -- writing back the shell of `pid` is quiet
  pub put_shell-IsQuiet : {os : Os} (as' : ItemList Action) → IsQuiet os w pid (put_actions w s as')
  unfolding put_shell
  put_shell-IsQuiet as' = record {
    others = get-put_actions_ne as';
    same_dir = refl;
    same_paths = (refl, refl);
    durable = inl (refl, refl);
    silent = refl;
  }

  pub addr : IsWellFormed w → s.sun_path ≡ socket_path w.cache_dir pid
  addr v =
      (found-IsShell w pid e v).addressed ∙ ap (socket_path w.cache_dir) (pid-get_shell w pid e)

pub save-IsQuiet :
    (os : Os) (w : World) (pid : ℤ) (tags : ItemList Tag)
    → IsQuiet os w pid (save_tags os (put_tags w tags))
unfolding save_tags
save-IsQuiet os w pid tags = record {
  others = λ q h. refl;
  same_dir = refl;
  same_paths = (refl, refl);
  durable = inr refl;
  silent = refl;
}

module _ (os : Os) (w : World) (v : IsWellFormed w) (pid : ℤ) where
  abbrev pub Local : Run World → Type 0
  Local = Ensures (IsLocal os w pid)

  -- a handler that does nothing, and one that only replies
  pub unchanged : Local (ok w)
  unchanged = IsQuiet-IsLocal IsQuiet-refl

  pub answer :
      (s : Shell) (payload : Bytes)
      → get_shell w pid ≡ some s
      → IsLocal os w pid (sendto w s.sun_path payload)
  answer s payload e = reply-IsLocal s.sun_path payload (addr w pid s e v) IsQuiet-refl
