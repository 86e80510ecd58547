-- ===== src/Commands/Tags/Keeps.antt =====
-- The invariant under the tag commands of src/daemon/commands.c.
use nav.Base.{
  ℕ, ◌≡◌, refl, ◌&&◌, Option, none, some, List, [], ◌∷◌, ltb, All, All-append, Bytes, ℤ, Bool-cases,
  inl, inr,
}
use nav.Run.{Run}
use nav.Run.Ensures.{Ensures, Ensures-bind}
use nav.CString.{Token, mem, strtok_r, sprintf}
use nav.CString.Laws.{strtok_r-ends, sprintf-ends}
use nav.Utils.{dup_word, valid_path}
use nav.Utils.Words.{IsWord, dup_word-IsWord}
use nav.ItemList.{ItemList, list_append_node, set_node}
use nav.ItemList.Maps.{IsMap, append-IsMap, set-IsMap, erase-IsMap, delete-erase}
use nav.ItemList.Members.{All-set, All-erase, All-get_node, key-get_node}
use nav.Tag.{Tag, cleanup_tag}
use nav.Tag.Keys.{tag_key}
use nav.Shell.{Shell}
use nav.World.{World, Os, sendto}
use nav.Commands.Replies.{Args}
use nav.Commands.Invariant.{IsTag, IsWellFormed, sendto-IsWellFormed, with_shell-cases}
use nav.Commands.Tags.{
  AddArgs, too_many, too_few, pair, get_tag, put_tags, save_tags, add_args, first_token,
  second_token, last_token, set_tag, added, add_tag, cmd_add, delete_tag, tag_token, tag_arg,
  cmd_delete, show_loop, show_size, cmd_show, list_loop, cmd_list, send_path, cmd_get, space,
}

abbrev pub HasWords : AddArgs → Type 0
HasWords (pair tag path) = IsWord tag × IsWord path
HasWords _ = Unit

last_token-HasWords :
    (tag path : Bytes) (o : Option Token)
    → IsWord tag
    → IsWord path
    → HasWords (last_token tag path o)
unfolding last_token
last_token-HasWords tag path none t p = (t, p)
last_token-HasWords tag path (some _) t p = tt

second_token-HasWords :
    (tag : Bytes) (o : Option Token) → IsWord tag → Ensures HasWords (second_token tag o)
unfolding second_token
second_token-HasWords tag none t = tt
second_token-HasWords tag (some k) t =
    Ensures-bind IsWord HasWords (dup_word (mem k)) _ (dup_word-IsWord (mem k)) λ path p.
      Ensures-bind (λ _. Unit) HasWords (strtok_r (some k.save) space) _ (strtok_r-ends _ _)
        λ o _. last_token-HasWords tag path o t p

first_token-HasWords : (o : Option Token) → Ensures HasWords (first_token o)
unfolding first_token
first_token-HasWords none = tt
first_token-HasWords (some k) =
    Ensures-bind IsWord HasWords (dup_word (mem k)) _ (dup_word-IsWord (mem k)) λ tag t.
      Ensures-bind (λ _. Unit) HasWords (strtok_r (some k.save) space) _ (strtok_r-ends _ _)
        λ o _. second_token-HasWords tag o t

-- What `add` reads from its arguments are words.
pub add_args-HasWords : (args : Args) → Ensures HasWords (add_args args)
unfolding add_args
add_args-HasWords args =
    Ensures-bind (λ _. Unit) HasWords (strtok_r args space) _ (strtok_r-ends _ _)
      λ o _. first_token-HasWords o

module _ {w : World} (v : IsWellFormed w) where
  put_tags-IsWellFormed :
      (tags : ItemList Tag)
      → IsMap tag_key tags
      → All IsTag tags.items
      → IsWellFormed (put_tags w tags)
  put_tags-IsWellFormed tags m all = record {
    shells = v.shells;
    members = v.members;
    tags = m;
    entries = all;
  }

  save_tags-IsWellFormed : (os : Os) → IsWellFormed (save_tags os w)
  unfolding save_tags
  save_tags-IsWellFormed os = record {
    shells = v.shells;
    members = v.members;
    tags = v.tags;
    entries = v.entries;
  }

module _ (os : Os) (w : World) (v : IsWellFormed w) where
  reply-IsWellFormed : (s : Shell) (payload : Bytes) → IsWellFormed (sendto w s.sun_path payload)
  reply-IsWellFormed s payload = sendto-IsWellFormed s.sun_path payload v

  -- the list that `add` makes
  NewTags : Option (ItemList Tag) → Type 0
  NewTags none = Unit
  NewTags (some tags) = IsMap tag_key tags × All IsTag tags.items

  set_tag-NewTags :
      (tag path : Bytes) (o : Option Tag)
      → get_tag w tag ≡ o
      → IsWord tag
      → IsWord path
      → NewTags (set_tag os w tag path o)
  unfolding set_tag NewTags
  set_tag-NewTags tag path (some old) e t p =
      let named : old.tag ≡ tag = key-get_node tag_key w.tags tag e in
      let is : IsTag old = All-get_node tag_key IsTag w.tags tag e v.entries in
      (
        set-IsMap tag_key w.tags tag (record old { path = path }) named v.tags,
        unfold set_node in
            All-set tag_key IsTag tag (record old { path = path }) w.tags.items
              (record { name = is.name; target = p }) v.entries,
      )
  set_tag-NewTags tag path none e t p = elim (Bool-cases (os.node_alloc && os.data_alloc)) [
    | inl m ↦
        rw (m, NewTags)
          (
            append-IsMap tag_key w.tags (record { tag = tag; path = path }) e v.tags,
            unfold list_append_node in
                All-append IsTag w.tags.items (record { tag = tag; path = path } ∷ []) v.entries
                  (record { name = t; target = p }, tt),
          )
    | inr m ↦ rw (m, NewTags) tt
  ]

  added-IsWellFormed :
      (s : Shell) (o : Option (ItemList Tag)) → NewTags o → IsWellFormed (added os w s o)
  unfolding added NewTags
  added-IsWellFormed s none h = reply-IsWellFormed s _
  added-IsWellFormed s (some tags) h =
      sendto-IsWellFormed s.sun_path _
        (save_tags-IsWellFormed (put_tags-IsWellFormed v tags h.0 h.1) os)

  add_tag-IsWellFormed : (s : Shell) (a : AddArgs) → HasWords a → IsWellFormed (add_tag os w s a)
  unfolding add_tag
  add_tag-IsWellFormed s (pair tag path) h = elim (Bool-cases (valid_path (os.fstatat path))) [
    | inl e ↦ rw e (added-IsWellFormed s _ (set_tag-NewTags tag path (get_tag w tag) refl h.0 h.1))
    | inr e ↦ rw e (reply-IsWellFormed s _)
  ]
  add_tag-IsWellFormed s too_many h = reply-IsWellFormed s _
  add_tag-IsWellFormed s too_few h = reply-IsWellFormed s _

  pub add-IsWellFormed : (pid : ℤ) (args : Args) → Ensures IsWellFormed (cmd_add os w pid args)
  unfolding cmd_add
  add-IsWellFormed pid args = with_shell-cases (Ensures IsWellFormed) w pid _ v λ s _.
      Ensures-bind HasWords IsWellFormed (add_args args) _ (add_args-HasWords args)
        λ a h. add_tag-IsWellFormed s a h

  -- a handler of one token keeps the invariant if its body does
  tag_arg-IsWellFormed :
      (args : Args) (body : Bytes → Run World)
      → ((tag : Bytes) → Ensures IsWellFormed (body tag))
      → Ensures IsWellFormed (tag_arg w args body)
  unfolding tag_arg
  tag_arg-IsWellFormed args body each =
      Ensures-bind (λ _. Unit) IsWellFormed (strtok_r args space) _ (strtok_r-ends _ _)
        λ o _. on_token o
    where
      on_token : (o : Option Token) → Ensures IsWellFormed (tag_token w body o)
      on_token none = v
      on_token (some t) =
          Ensures-bind IsWord IsWellFormed (dup_word (mem t)) body (dup_word-IsWord (mem t))
            λ tag _. each tag

  delete_tag-IsWellFormed :
      (s : Shell) (tag : Bytes) (o : Option Tag)
      → get_tag w tag ≡ o
      → Ensures IsWellFormed (delete_tag os w s tag o)
  unfolding delete_tag cleanup_tag
  delete_tag-IsWellFormed s tag none e = reply-IsWellFormed s _
  delete_tag-IsWellFormed s tag (some t) e =
      rw (delete-erase tag_key cleanup_tag tag w.tags t e refl) (
        sendto-IsWellFormed s.sun_path _ (
          save_tags-IsWellFormed
            (put_tags-IsWellFormed v _ (erase-IsMap tag_key w.tags tag t e v.tags)
              (All-erase tag_key IsTag tag w.tags.items v.entries))
            os))

  pub delete-IsWellFormed :
      (pid : ℤ) (args : Args) → Ensures IsWellFormed (cmd_delete os w pid args)
  unfolding cmd_delete
  delete-IsWellFormed pid args =
      with_shell-cases (Ensures IsWellFormed) w pid _ v
        λ s _. tag_arg-IsWellFormed args _ λ tag. delete_tag-IsWellFormed s tag (get_tag w tag) refl

  send_path-IsWellFormed : (s : Shell) (o : Option Tag) → Ensures IsWellFormed (send_path w s o)
  unfolding send_path
  send_path-IsWellFormed s none = reply-IsWellFormed s _
  send_path-IsWellFormed s (some t) =
      Ensures-bind (λ _. Unit) IsWellFormed (sprintf _ _ _) _ (sprintf-ends _ _ _)
        λ buf _. reply-IsWellFormed s buf

  pub get-IsWellFormed : (pid : ℤ) (args : Args) → Ensures IsWellFormed (cmd_get os w pid args)
  unfolding cmd_get
  get-IsWellFormed pid args =
      with_shell-cases (Ensures IsWellFormed) w pid _ v
        λ s _. tag_arg-IsWellFormed args _ λ tag. send_path-IsWellFormed s (get_tag w tag)

pub show_loop-ends :
    (ts : List Tag) (offset : ℕ) (out : Bytes) → Ensures (λ _. Unit) (show_loop ts offset out)
unfolding show_loop
show_loop-ends [] offset out = tt
show_loop-ends (t ∷ ts) offset out = elim (Bool-cases (ltb show_size offset)) [
  | inl e ↦ rw (e, Ensures) tt
  | inr e ↦ rw e (show_loop-ends ts _ _)
]

pub list_loop-ends : (ts : List Tag) (out : Bytes) → Ensures (λ _. Unit) (list_loop ts out)
unfolding list_loop
list_loop-ends [] out = tt
list_loop-ends (t ∷ ts) out =
    Ensures-bind (λ _. Unit) _ (sprintf _ _ _) _ (sprintf-ends _ _ _)
      λ out' _. list_loop-ends ts out'

module _ (os : Os) (w : World) (v : IsWellFormed w) (pid : ℤ) (args : Args) where
  pub show-IsWellFormed : Ensures IsWellFormed (cmd_show os w pid args)
  unfolding cmd_show
  show-IsWellFormed = with_shell-cases (Ensures IsWellFormed) w pid _ v λ s _.
      Ensures-bind (λ _. Unit) IsWellFormed (show_loop w.tags.items 0 []) _
        (show_loop-ends w.tags.items 0 []) λ buf _. sendto-IsWellFormed s.sun_path buf v

  pub list-IsWellFormed : Ensures IsWellFormed (cmd_list os w pid args)
  unfolding cmd_list
  list-IsWellFormed = with_shell-cases (Ensures IsWellFormed) w pid _ v λ s _.
      Ensures-bind (λ _. Unit) IsWellFormed (list_loop w.tags.items []) _
        (list_loop-ends w.tags.items []) λ buf _. sendto-IsWellFormed s.sun_path _ v
