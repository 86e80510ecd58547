-- ===== src/Tests/Tags.antt =====
-- Binding, listing, looking up and unbinding tags.
use nav.Base.{
  ◌≡◌, refl, true, some, none, [], ◌∷◌, ◌++◌, Bytes, bytes_eq, codes, int_eq, pos, replicate, arith,
}
use nav.Run.{ok, fault}
use nav.Run.Ensures.{Returns}
use nav.CString.{strcmp}
use nav.Utils.{valid_path}
use nav.ItemList.{list_append_node, list_get_node, get_first}
use nav.Shell.{compare_shell_pid}
use nav.Tag.{Tag, compare_tag_tag}
use nav.World.{World, sendto}
use nav.Commands.Replies.{ok_reply, bad_reply}
use nav.Commands.Tags.{
  get_tag, put_tags, save_tags, add_args, add_tag, set_tag, added, cmd_add, cmd_delete, cmd_show,
  cmd_list, cmd_get, pair,
}
use nav.Commands.Tags.Add.{Added, add-Added, add-Refused}
use nav.Commands.Tags.Delete.{Deleted, delete-Deleted}
use nav.Commands.Tags.Get.{get-add, get-overflows}
use nav.Commands.Tags.Listing.{
  list-spaced, show-shown, show-overflows, tag_names, show_text, spaced,
}
use nav.Commands.Tags.Parse.{IsName, spell, add_args-spell, words_of}
use nav.Tests.Data.{
  os, world, world-IsWellFormed, found_shell, found_other, shell, other_shell, tag_a, tag_b, behind,
  behind_blank, printable-IsWord,
}

IsName-a : IsName (codes "a")
IsName-a = printable-IsWord (codes "a") refl

IsName-c : IsName (codes "c")
IsName-c = printable-IsWord (codes "c") refl

path_z : IsName (codes "/z")
path_z = printable-IsWord (codes "/z") refl

valid_z : valid_path (os.fstatat (codes "/z")) ≡ true
unfolding valid_path
valid_z = refl

add_example :
    Returns
      (Added os world shell (codes "c") (codes "/z"))
      (cmd_add os world (pos 7) (some (spell (codes "c" ∷ codes "/z" ∷ []) behind)))
add_example =
    add-Added os world (pos 7) shell found_shell (codes "c") (codes "/z") behind IsName-c path_z
      behind_blank valid_z refl refl

add_refused_example :
    cmd_add os world (pos 7) (some (spell (codes "c" ∷ []) behind))
    ≡ ok (sendto world (codes "/c/7.sock") bad_reply)
unfolding words_of
add_refused_example =
    add-Refused os world (pos 7) shell found_shell (codes "c" ∷ []) behind (IsName-c, tt)
      behind_blank tt

-- the world after `add c /z` from shell 7
abbrev with_c : World
with_c =
    sendto
      (save_tags os (
        put_tags world
          (list_append_node world.tags (record { tag = codes "c"; path = codes "/z" }))))
      (codes "/c/7.sock") ok_reply

add_c_args :
    add_args (some (spell (codes "c" ∷ codes "/z" ∷ []) behind))
    ≡ ok (pair (codes "c") (codes "/z"))
unfolding words_of
add_c_args =
    add_args-spell (codes "c" ∷ codes "/z" ∷ []) behind (IsName-c, (path_z, tt)) behind_blank

add_runs : cmd_add os world (pos 7) (some (spell (codes "c" ∷ codes "/z" ∷ []) behind)) ≡ ok with_c
unfolding cmd_add add_tag set_tag added list_get_node get_first compare_tag_tag strcmp bytes_eq
    valid_path
add_runs = rw (found_shell, add_c_args) refl

get_add_example :
    cmd_get os with_c (pos 12) (some (spell (codes "c" ∷ []) behind))
    ≡ ok (sendto with_c (codes "/c/12.sock") (codes "/z\n"))
get_add_example =
    get-add os os world with_c (pos 7) (pos 12) shell other_shell (codes "c") (codes "/z") behind
      behind [] found_shell
      (unfold list_get_node get_first compare_shell_pid int_eq sendto save_tags in refl) IsName-c
      path_z behind_blank behind_blank valid_z refl refl (omega arith) add_runs

found_a : get_tag world (codes "a") ≡ some tag_a
unfolding list_get_node get_first compare_tag_tag strcmp bytes_eq
found_a = refl

no_c : get_tag world (codes "c") ≡ none
unfolding list_get_node get_first compare_tag_tag strcmp bytes_eq
no_c = refl

delete_example :
    Returns
      (Deleted os world shell (codes "a"))
      (cmd_delete os world (pos 7) (some (spell (codes "a" ∷ []) behind)))
delete_example =
    delete-Deleted os world (pos 7) shell (codes "a") behind [] found_shell IsName-a behind_blank
      tag_a world-IsWellFormed found_a

list_example :
    cmd_list os world (pos 12) none
    ≡ ok (sendto world (codes "/c/12.sock") (codes "a b" ++ replicate 253 0))
unfolding tag_names spaced
list_example = list-spaced os world (pos 12) none other_shell found_other

show_example :
    cmd_show os world (pos 12) none
    ≡ ok (sendto world (codes "/c/12.sock") (codes "a --> /x\nb --> /y\n"))
unfolding show_text
show_example = show-shown os world (pos 12) none other_shell found_other (omega arith)

-- a tag whose path has 99 bytes
abbrev long_path : Bytes
long_path = replicate 99 b'x'

abbrev with_long : World
with_long =
    put_tags world
      (record { items = record { tag = codes "a"; path = long_path } ∷ []; n_items = 1 })

found_long : get_tag with_long (codes "a") ≡ some (record { tag = codes "a"; path = long_path })
unfolding list_get_node get_first compare_tag_tag strcmp bytes_eq
found_long = refl

get_overflows_example : cmd_get os with_long (pos 7) (some (spell (codes "a" ∷ []) behind)) ≡ fault
get_overflows_example =
    get-overflows os with_long (pos 7) shell (codes "a") behind [] found_shell IsName-a behind_blank
      (record { tag = codes "a"; path = long_path }) found_long (omega arith)

-- a line of more than 2048 bytes, and a tag behind it
abbrev huge_tag : Tag
huge_tag = record { tag = codes "a"; path = replicate 2048 b'x' }

abbrev with_huge : World
with_huge = put_tags world (record { items = huge_tag ∷ tag_b ∷ []; n_items = 2 })

show_overflows_example : cmd_show os with_huge (pos 7) none ≡ fault
show_overflows_example =
    show-overflows os with_huge (pos 7) none shell found_shell (huge_tag ∷ []) [] tag_b refl
      (unfold show_text in omega arith)
