-- ===== src/Commands/Tags/Add.antt =====
-- What `add` of src/daemon/commands.c makes of the tags.
use nav.Base.{
  ◌≡◌, refl, true, false, ◌&&◌, Option, none, some, List, [], ◌∷◌, ◌++◌, All, Bytes, ℤ, bytes_eq,
  if◌then◌else◌, Bool-cases, inl, inr, ◌⊎◌,
}
use nav.Run.{ok}
use nav.Run.Ensures.{Returns}
use nav.Utils.{valid_path}
use nav.Utils.Words.{has_blank}
use nav.ItemList.{ItemList, list_append_node, set_node}
use nav.Tag.{Tag, compare_tag_tag, write_tag_file, tag_lines}
use nav.Shell.{Shell}
use nav.World.{World, Os, sendto}
use nav.Commands.Replies.{get_shell, ok_reply, bad_reply}
use nav.Commands.Tags.{
  get_tag, put_tags, save_tags, AddArgs, pair, too_few, too_many, set_tag, added, add_tag, cmd_add,
}
use nav.Commands.Tags.Parse.{IsName, spell, words_of, add_args-spell}
use nav.Commands.Tags.Names.{names, with_name, names-set_node, names-append_node}
use nav.Commands.Tags.Map.{path_in, set-path_in, append-path_in}

-- what `add` makes of the state
pub record Added (os : Os) (w : World) (s : Shell) (tag path : Bytes) (w' : World) : Type 0 where
  pub paths :
      (k : Bytes) → path_in w'.tags k ≡ (if bytes_eq tag k then some path else path_in w.tags k)
  pub names : names w'.tags.items ≡ with_name tag (path_in w.tags tag) (names w.tags.items)
  pub shells : w'.shells ≡ w.shells
  pub saved : w'.tagfile ≡ (if os.fopen_w then some (tag_lines w'.tags.items) else w.tagfile)
  pub replied : w'.sent ≡ w.sent ++ record { to = s.sun_path; payload = ok_reply } ∷ []

-- the list that `add` stores, whether the tag is there or new
module _ (os : Os) (w : World) (tag path : Bytes) where
  set_tag-stores :
      (o : Option Tag)
      → get_tag w tag ≡ o
      → os.node_alloc ≡ true
      → os.data_alloc ≡ true
      → (tags : ItemList Tag) × (set_tag os w tag path o ≡ some tags)
        × ((k : Bytes) → path_in tags k ≡ (if bytes_eq tag k then some path else path_in w.tags k))
        × (names tags.items ≡ with_name tag (path_in w.tags tag) (names w.tags.items))
  unfolding set_tag path_in
  set_tag-stores (some old) e n d = (
    set_node compare_tag_tag w.tags tag (record old { path = path }),
    refl,
    λ k. unfold path_in in set-path_in w.tags tag path k old e,
    rw e (names-set_node w.tags tag path old e),
  )
  set_tag-stores none e n d = (
    list_append_node w.tags (record { tag = tag; path = path }),
    rw (n, d),
    λ k. unfold path_in in append-path_in w.tags tag path k e,
    rw e (names-append_node w.tags tag path),
  )

module _ (os : Os) (w : World) (s : Shell) (tag path : Bytes) where
  add_tag-eq :
      (tags : ItemList Tag)
      → valid_path (os.fstatat path) ≡ true
      → set_tag os w tag path (get_tag w tag) ≡ some tags
      → add_tag os w s (pair tag path) ≡ sendto (save_tags os (put_tags w tags)) s.sun_path ok_reply
  unfolding add_tag added
  add_tag-eq tags valid stored = rw (valid, stored)

  saved-Added :
      (tags : ItemList Tag)
      → ((k : Bytes) → path_in tags k ≡ (if bytes_eq tag k then some path else path_in w.tags k))
      → names tags.items ≡ with_name tag (path_in w.tags tag) (names w.tags.items)
      → Added os w s tag path (sendto (save_tags os (put_tags w tags)) s.sun_path ok_reply)
  unfolding sendto save_tags write_tag_file
  saved-Added tags paths named = record {
    paths = paths;
    names = named;
    shells = refl;
    saved = elim (Bool-cases os.fopen_w) [ inl o ↦ rw o | inr o ↦ rw o ];
    replied = refl;
  }

-- why `add` refuses what it read
abbrev pub Refused : Os → World → AddArgs → Type 0
Refused os w (pair tag path) =
    (valid_path (os.fstatat path) ≡ false)
    ⊎ ((get_tag w tag ≡ none) × ((os.node_alloc && os.data_alloc) ≡ false))
Refused os w _ = Unit

module _ (os : Os) (w : World) (pid : ℤ) (s : Shell) (e : get_shell w pid ≡ some s) where
  -- With two words, the second an existing path, memory to be had and a newline or space behind the
  -- arguments, `add` by a registered shell returns: it binds the first word to the second, puts a new
  -- name behind the others, leaves every other tag and all shells, writes all tags to the tag file if that can be opened, and replies OK.
  pub add-Added :
      (tag path m : Bytes)
      → IsName tag
      → IsName path
      → has_blank m ≡ true
      → valid_path (os.fstatat path) ≡ true
      → os.node_alloc ≡ true
      → os.data_alloc ≡ true
      → Returns (Added os w s tag path) (cmd_add os w pid (some (spell (tag ∷ path ∷ []) m)))
  unfolding cmd_add words_of
  add-Added tag path m ht hp b valid n d =
      let (tags, stored, paths, named) = set_tag-stores os w tag path (get_tag w tag) refl n d in
      rw
        (
          e,
          add_args-spell (tag ∷ path ∷ []) m (ht, (hp, tt)) b,
          add_tag-eq os w s tag path tags valid stored,
        )
        (saved-Added os w s tag path tags paths named)

  add_tag-Refused :
      (a : AddArgs) → Refused os w a → add_tag os w s a ≡ sendto w s.sun_path bad_reply
  unfolding add_tag set_tag added
  add_tag-Refused too_many h = refl
  add_tag-Refused too_few h = refl
  add_tag-Refused (pair tag path) (inl bad) = rw bad
  add_tag-Refused (pair tag path) (inr (new, full)) =
      elim (Bool-cases (valid_path (os.fstatat path))) [ inl v ↦ rw (v, new, full) | inr v ↦ rw v ]

  -- With other than two words, with a path that is not there, or with a new name and no memory, `add`
  -- by a registered shell replies BAD and changes nothing else, if a newline or space lies behind the
  -- arguments.
  pub add-Refused :
      (ws : List Bytes) (m : Bytes)
      → All IsName ws
      → has_blank m ≡ true
      → Refused os w (words_of ws)
      → cmd_add os w pid (some (spell ws m)) ≡ ok (sendto w s.sun_path bad_reply)
  unfolding cmd_add
  add-Refused ws m names b h = rw (e, add_args-spell ws m names b, add_tag-Refused (words_of ws) h)
