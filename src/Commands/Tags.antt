-- ===== src/Commands/Tags.antt =====
-- src/daemon/commands.c: `add`, `delete`, `show`, `list` and `get`.
pub mod Keeps
pub mod Listing
pub mod Parse
pub mod Map
pub mod Names
pub mod Add
pub mod Delete
pub mod Get
use nav.Base.{
  ℕ, zero, suc, ◌+◌, ◌-◌, Bool, true, false, ◌&&◌, Option, none, some, List, [], ◌∷◌, ◌++◌, Bytes,
  codes, ℤ, length, take, replicate, ltb, ◌==◌, if◌then◌else◌,
}
use nav.Run.{Run, ok, fault, hang, ◌>>=◌}
use nav.CString.{Token, mem, strtok_r, sprintf, snprintf}
use nav.Utils.{dup_word, valid_path}
use nav.ItemList.{ItemList, list_append_node, list_delete_node, list_get_node, set_node}
use nav.Tag.{Tag, compare_tag_tag, cleanup_tag, write_tag_file}
use nav.Shell.{Shell}
use nav.World.{World, Os, sendto}
use nav.Commands.Replies.{Args, ok_reply, bad_reply, with_shell}

abbrev pub space : Bytes
space = b' ' ∷ []

abbrev pub get_tag : World → Bytes → Option Tag
get_tag w tag = list_get_node compare_tag_tag w.tags tag

abbrev pub put_tags : World → ItemList Tag → World
put_tags w tags = record w { state = record w.state { tags = tags } }

-- what the loop over the arguments of `add` leaves
pub data AddArgs : Type 0 where
  too_many too_few : AddArgs
  pair : (tag path : Bytes) → AddArgs

-- the third round, which accepts no token
unfoldable pub last_token : Bytes → Bytes → Option Token → AddArgs
last_token tag path none = pair tag path
last_token tag path (some t) = too_many

unfoldable pub second_token : Bytes → Option Token → Run AddArgs
unfolding last_token
second_token tag none = ok too_few
second_token tag (some t) = do
  path ← dup_word (mem t)
  next ← strtok_r (some t.save) space
  ok (last_token tag path next)

unfoldable pub first_token : Option Token → Run AddArgs
unfolding second_token
first_token none = ok too_few
first_token (some t) = do
  tag ← dup_word (mem t)
  next ← strtok_r (some t.save) space
  second_token tag next

-- With no arguments the first call of `strtok_r` has two null pointers.
unfoldable pub add_args : Args → Run AddArgs
unfolding first_token
add_args args = do t ← strtok_r args space; first_token t

-- `write_tag_file` on the world
unfoldable pub save_tags : Os → World → World
save_tags os w = record w { tagfile = (write_tag_file os.fopen_w w.tags w.tagfile).1 }

-- an existing tag gets the new path; a new one is appended, if memory can be had
unfoldable pub set_tag : Os → World → Bytes → Bytes → Option Tag → Option (ItemList Tag)
set_tag os w tag path (some old) =
    some (set_node compare_tag_tag w.tags tag (record old { path = path }))
set_tag os w tag path none =
    if os.node_alloc && os.data_alloc
    then some (list_append_node w.tags (record { tag = tag; path = path }))
    else none

unfoldable pub added : Os → World → Shell → Option (ItemList Tag) → World
added os w s none = sendto w s.sun_path bad_reply
added os w s (some tags) = sendto (save_tags os (put_tags w tags)) s.sun_path ok_reply

unfoldable pub add_tag : Os → World → Shell → AddArgs → World
unfolding set_tag added
add_tag os w s (pair tag path) =
    if valid_path (os.fstatat path)
    then added os w s (set_tag os w tag path (get_tag w tag))
    else sendto w s.sun_path bad_reply
add_tag os w s _ = sendto w s.sun_path bad_reply

unfoldable pub cmd_add : Os → World → ℤ → Args → Run World
unfolding add_tag
cmd_add os w pid args = with_shell w pid (λ s. do a ← add_args args; ok (add_tag os w s a))

unfoldable pub delete_tag : Os → World → Shell → Bytes → Option Tag → Run World
delete_tag os w s tag none = ok (sendto w s.sun_path bad_reply)
delete_tag os w s tag (some _) = do
  r ← list_delete_node compare_tag_tag cleanup_tag w.tags tag
  ok (sendto (save_tags os (put_tags w r.1)) s.sun_path ok_reply)

-- without a token there is no reply
unfoldable pub tag_token : World → (Bytes → Run World) → Option Token → Run World
tag_token w body none = ok w
tag_token w body (some t) = do tag ← dup_word (mem t); body tag

-- the first token of the arguments, copied, for `delete` and `get`
unfoldable pub tag_arg : World → Args → (Bytes → Run World) → Run World
unfolding tag_token
tag_arg w args body = do t ← strtok_r args space; tag_token w body t

unfoldable pub cmd_delete : Os → World → ℤ → Args → Run World
unfolding delete_tag tag_arg
cmd_delete os w pid args =
    with_shell w pid (λ s. tag_arg w args (λ tag. delete_tag os w s tag (get_tag w tag)))

-- the buffers of the handlers
abbrev pub show_size : ℕ
show_size = 2048

abbrev pub list_size : ℕ
list_size = 256

abbrev pub get_size : ℕ
get_size = 100

-- `"%s --> %s\n"`
abbrev pub show_line : Tag → Bytes
show_line t = t.tag ++ codes " --> " ++ t.path ++ b'\n' ∷ []

-- `offset` adds up what `snprintf` would have written. Once it passes the size, the pointer is out
-- of the buffer and the size argument wraps around.
pub show_loop : List Tag → ℕ → Bytes → Run Bytes
show_loop [] offset out = ok out
show_loop (t ∷ ts) offset out =
    if ltb show_size offset
    then fault
    else show_loop ts (offset + length (show_line t))
        (out ++ snprintf (show_size - offset) (show_line t))

unfoldable pub cmd_show : Os → World → ℤ → Args → Run World
unfolding show_loop
cmd_show os w pid args =
    with_shell w pid (λ s. do buf ← show_loop w.tags.items 0 []; ok (sendto w s.sun_path buf))

pub list_loop : List Tag → Bytes → Run Bytes
list_loop [] out = ok out
list_loop (t ∷ ts) out = do out' ← sprintf list_size out (t.tag ++ space); list_loop ts out'

-- `buf[offset - 1] = 0` if `offset > 0`, and the whole buffer of `list_size` bytes is sent
pub list_payload : Bytes → Bytes
list_payload out =
    let text = take (length out - 1) out in text ++ replicate (list_size - length text) 0

unfoldable pub cmd_list : Os → World → ℤ → Args → Run World
unfolding list_loop list_payload
cmd_list os w pid args =
    with_shell w pid
      (λ s. do buf ← list_loop w.tags.items []; ok (sendto w s.sun_path (list_payload buf)))

unfoldable pub send_path : World → Shell → Option Tag → Run World
send_path w s none = ok (sendto w s.sun_path bad_reply)
send_path w s (some t) = do
  buf ← sprintf get_size [] (t.path ++ b'\n' ∷ [])
  ok (sendto w s.sun_path buf)

unfoldable pub cmd_get : Os → World → ℤ → Args → Run World
unfolding send_path tag_arg
cmd_get os w pid args =
    with_shell w pid (λ s. tag_arg w args (λ tag. send_path w s (get_tag w tag)))
