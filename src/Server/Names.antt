-- ===== src/Server/Names.antt =====
-- `add`, `delete` and `get` of src/daemon/commands.c as requests of a `Server`.
use nav.Base.{
  ◌≡◌, refl, ◌∙◌, true, Option, none, some, [], ◌∷◌, ◌++◌, Bytes, ℤ, Bool-cases, inl, inr,
}
use nav.Run.{Run}
use nav.Run.Ensures.{Returns-mono}
use nav.Utils.{valid_path}
use nav.Utils.Words.{has_blank}
use nav.Tag.{Tag}
use nav.Shell.{Shell}
use nav.World.{World, Os}
use nav.Commands.Replies.{Args, get_shell, bad_reply}
use nav.Commands.Invariant.{IsWellFormed}
use nav.Commands.Isolation.Answer.{addr}
use nav.Server.Arguments.{FirstWord}
use nav.Commands.Tags.{delete_tag, send_path}
use nav.Commands.Tags.Parse.{tag_arg-first, tag_arg-spell, IsName, spell, words_of}
use nav.Commands.Tags.Map.{path_in}
use nav.Commands.Tags.Add.{Refused, Added, add-Added, add-Refused}
use nav.Commands.Tags.Delete.{Deleted, delete-Deleted, delete-missing}
use nav.Commands.Tags.Get.{FitsGet, answer, get-answer}
use nav.Commands.Tags.{get_tag, cmd_add, cmd_delete, cmd_get}
use nav.Server.{bind, unbind, find, found_path}
use nav.Server.View.{view, view-set_tags}
use nav.Server.Refines.{Serves, reply-Gives}

module _ (os : Os) (w : World) (v : IsWellFormed w) (pid : ℤ) (s : Shell)
    (e : get_shell w pid ≡ some s) where
  same_answer : (o : Option Bytes) → answer o ≡ found_path o
  same_answer none = refl
  same_answer (some path) = refl

  -- what follows the first word does not count
  get-first :
      (tag m : Bytes)
      → IsName tag
      → has_blank m ≡ true
      → cmd_get os w pid (some (tag ++ b' ' ∷ m)) ≡ cmd_get os w pid (some (spell (tag ∷ []) m))
  unfolding cmd_get
  get-first tag m name b =
      let body : Bytes → Run World = λ k. send_path w s (get_tag w k) in
      rw (e, tag_arg-first w tag m body name b, tag_arg-spell w tag [] m body name b) refl

  delete-first :
      (tag m : Bytes)
      → IsName tag
      → has_blank m ≡ true
      → cmd_delete os w pid (some (tag ++ b' ' ∷ m))
        ≡ cmd_delete os w pid (some (spell (tag ∷ []) m))
  unfolding cmd_delete
  delete-first tag m name b =
      let body : Bytes → Run World = λ k. delete_tag os w s k (get_tag w k) in
      rw (e, tag_arg-first w tag m body name b, tag_arg-spell w tag [] m body name b) refl

  pub find-Serves :
      (tag : Bytes) (args : Args)
      → IsName tag
      → FirstWord tag args
      → FitsGet (path_in w.tags tag)
      → Serves os w v pid s e (find tag) (cmd_get os w pid args)
  find-Serves tag args name (m, blank, same) fits =
      rw (same, get-first tag m name blank, get-answer os w pid s tag m [] e name blank fits)
        (rw (same_answer (path_in w.tags tag))
          (reply-Gives os w v pid s e w (found_path (path_in w.tags tag)) (view w) refl refl))

  pub bind-Serves :
      (tag path m : Bytes)
      → IsName tag
      → IsName path
      → has_blank m ≡ true
      → os.node_alloc ≡ true
      → os.data_alloc ≡ true
      → Serves os w v pid s e (bind tag path) (cmd_add os w pid (some (spell (tag ∷ path ∷ []) m)))
  bind-Serves tag path m ht hp blank n d = elim (Bool-cases (valid_path (os.fstatat path))) [
    | inl valid ↦ rw valid (
        Returns-mono (Added os w s tag path) _ (cmd_add os w pid (some (spell (tag ∷ path ∷ []) m)))
          (λ w' h. (
            view-set_tags w w' _ _ h.shells h.names h.paths,
            h.replied ∙ rw (addr w pid s e v) refl,
          ))
          (add-Added os w pid s e tag path m ht hp blank valid n d))
    | inr bad ↦
        let why : Refused os w (words_of (tag ∷ path ∷ [])) = unfold words_of in inl bad in
        rw (bad, add-Refused os w pid s e (tag ∷ path ∷ []) m (ht, (hp, tt)) blank why)
          (reply-Gives os w v pid s e w bad_reply (view w) refl refl)
  ]

  pub unbind-Serves :
      (tag : Bytes) (args : Args)
      → IsName tag
      → FirstWord tag args
      → Serves os w v pid s e (unbind tag) (cmd_delete os w pid args)
  unfolding path_in
  unbind-Serves tag args name (m, blank, same) =
      rw (same, delete-first tag m name blank) (by_tag (get_tag w tag) refl)
    where
      by_tag :
          (o : Option Tag)
          → get_tag w tag ≡ o
          → Serves os w v pid s e (unbind tag) (cmd_delete os w pid (some (spell (tag ∷ []) m)))
      by_tag none e' =
          rw (e', delete-missing os w pid s tag m [] e name blank e')
            (reply-Gives os w v pid s e w bad_reply (view w) refl refl)
      by_tag (some t) e' = rw e' (
          Returns-mono (Deleted os w s tag) _ (cmd_delete os w pid (some (spell (tag ∷ []) m)))
            (λ w' h. (
              view-set_tags w w' _ _ h.shells h.names h.paths,
              h.replied ∙ rw (addr w pid s e v) refl,
            ))
            (delete-Deleted os w pid s tag m [] e name blank t v e'))
