-- ===== src/Commands/Tags/Delete.antt =====
-- What `delete` of src/daemon/commands.c makes of the tags.
use nav.Base.{
  ◌-◌, ◌≡◌, refl, true, none, some, List, [], ◌∷◌, ◌++◌, Bytes, ℤ, bytes_eq, if◌then◌else◌,
  Bool-cases, inl, inr,
}
use nav.Run.{ok}
use nav.Run.Ensures.{Returns}
use nav.Utils.Words.{has_blank}
use nav.ItemList.{ItemList}
use nav.ItemList.Maps.{delete-erase}
use nav.Tag.{Tag, cleanup_tag, write_tag_file, tag_lines}
use nav.Tag.Keys.{tag_key}
use nav.Shell.{Shell}
use nav.World.{World, Os, sendto}
use nav.Commands.Replies.{get_shell, ok_reply, bad_reply}
use nav.Commands.Invariant.{IsWellFormed}
use nav.Commands.Tags.{get_tag, put_tags, save_tags, delete_tag, cmd_delete}
use nav.Commands.Tags.Parse.{IsName, spell, tag_arg-spell}
use nav.Commands.Tags.Names.{names, without_name, names-erase}
use nav.Commands.Tags.Map.{path_in, erase-path_in}

-- what `delete` makes of the state
pub record Deleted (os : Os) (w : World) (s : Shell) (tag : Bytes) (w' : World) : Type 0 where
  pub paths : (k : Bytes) → path_in w'.tags k ≡ (if bytes_eq tag k then none else path_in w.tags k)
  pub names : names w'.tags.items ≡ without_name tag (names w.tags.items)
  pub shells : w'.shells ≡ w.shells
  pub saved : w'.tagfile ≡ (if os.fopen_w then some (tag_lines w'.tags.items) else w.tagfile)
  pub replied : w'.sent ≡ w.sent ++ record { to = s.sun_path; payload = ok_reply } ∷ []

saved-Deleted :
    (os : Os) (w : World) (s : Shell) (tag : Bytes) (tags : ItemList Tag)
    → ((k : Bytes) → path_in tags k ≡ (if bytes_eq tag k then none else path_in w.tags k))
    → names tags.items ≡ without_name tag (names w.tags.items)
    → Deleted os w s tag (sendto (save_tags os (put_tags w tags)) s.sun_path ok_reply)
unfolding sendto save_tags write_tag_file
saved-Deleted os w s tag tags paths named = record {
  paths = paths;
  names = named;
  shells = refl;
  saved = elim (Bool-cases os.fopen_w) [ inl o ↦ rw o | inr o ↦ rw o ];
  replied = refl;
}

module _ (os : Os) (w : World) (pid : ℤ) (s : Shell) (tag m : Bytes) (ws : List Bytes)
    (e : get_shell w pid ≡ some s) (name : IsName tag) (b : has_blank m ≡ true) where
  -- In a well-formed state, `delete` by a registered shell of a tag that is there returns: it unbinds
  -- the tag, leaves every other tag, in its place, and all shells, writes all tags to the tag file if that can be
  -- opened, and replies OK, if a newline or space lies behind the arguments.
  pub delete-Deleted :
      (t : Tag)
      → IsWellFormed w
      → get_tag w tag ≡ some t
      → Returns (Deleted os w s tag) (cmd_delete os w pid (some (spell (tag ∷ ws) m)))
  unfolding cmd_delete delete_tag cleanup_tag
  delete-Deleted t v there =
      rw
        (
          e,
          tag_arg-spell w tag ws m (λ k. delete_tag os w s k (get_tag w k)) name b,
          there,
          delete-erase tag_key cleanup_tag tag w.tags t there refl,
        )
        (saved-Deleted os w s tag _
          (λ k. erase-path_in w.tags tag k (w.tags.n_items - 1) v.tags.distinct)
          (names-erase w.tags.items tag))

  -- `delete` by a registered shell of a tag that is not there replies BAD and changes nothing else, if a
  -- newline or space lies behind the arguments.
  pub delete-missing :
      get_tag w tag ≡ none
      → cmd_delete os w pid (some (spell (tag ∷ ws) m)) ≡ ok (sendto w s.sun_path bad_reply)
  unfolding cmd_delete delete_tag
  delete-missing gone =
      rw (e, tag_arg-spell w tag ws m (λ k. delete_tag os w s k (get_tag w k)) name b, gone)
