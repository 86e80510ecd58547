-- ===== src/Commands/Tags/Get.antt =====
-- What `get` of src/daemon/commands.c replies.
use mathlib.Core.Option
use nav.Base.{
  ◌≡◌, refl, ◌∙◌, ◌≤◌, ◌<◌, true, Option, none, some, List, [], ◌∷◌, ◌++◌, length, length-append,
  Bytes, ℤ, bytes_eq_refl, arith,
}
use nav.Run.{ok, fault}
use nav.CString.Bounds.{sprintf-fits, sprintf-overflows}
use nav.Utils.{valid_path}
use nav.Utils.Words.{has_blank}
use nav.Tag.{Tag}
use nav.Shell.{Shell}
use nav.World.{World, Os, sendto}
use nav.Commands.Replies.{get_shell, bad_reply}
use nav.Commands.Tags.{get_tag, cmd_add, send_path, cmd_get}
use nav.Commands.Tags.Parse.{IsName, spell, tag_arg-spell}
use nav.Commands.Tags.Map.{path_in}
use nav.Commands.Tags.Add.{add-Added}

-- the reply to a lookup that found this
abbrev pub answer : Option Bytes → Bytes
answer none = bad_reply
answer (some path) = path ++ b'\n' ∷ []

abbrev pub FitsGet : Option Bytes → Type 0
FitsGet none = Unit
FitsGet (some path) = length path ≤ 98

send-answer :
    (w : World) (s : Shell) (o : Option Tag)
    → FitsGet (Option.map (λ t. t.path) o)
    → send_path w s o ≡ ok (sendto w s.sun_path (answer (Option.map (λ t. t.path) o)))
unfolding send_path
send-answer w s none h = refl
send-answer w s (some t) h = rw (
    sprintf-fits 100 [] (t.path ++ b'\n' ∷ [])
      (omega (arith, h, length-append t.path (b'\n' ∷ []))))

module _ (os : Os) (w : World) (pid : ℤ) (s : Shell) (tag m : Bytes) (ws : List Bytes)
    (e : get_shell w pid ≡ some s) (name : IsName tag) (b : has_blank m ≡ true) where
  -- `get` replies the path of the tag and a newline, or BAD if there is no such tag, and changes nothing
  -- else, if the path has at most 98 bytes.
  pub get-answer :
      FitsGet (path_in w.tags tag)
      → cmd_get os w pid (some (spell (tag ∷ ws) m))
        ≡ ok (sendto w s.sun_path (answer (path_in w.tags tag)))
  unfolding cmd_get path_in
  get-answer h = rw (
    e,
    tag_arg-spell w tag ws m (λ k. send_path w s (get_tag w k)) name b,
    send-answer w s (get_tag w tag) h,
  )

  -- `get` of a tag whose path has more than 98 bytes overflows the buffer of 100 bytes, if the shell is
  -- registered and a newline or space lies behind the arguments.
  pub get-overflows :
      (t : Tag)
      → get_tag w tag ≡ some t
      → 98 < length t.path
      → cmd_get os w pid (some (spell (tag ∷ ws) m)) ≡ fault
  unfolding cmd_get send_path
  get-overflows t there long = rw (
    e,
    tag_arg-spell w tag ws m (λ k. send_path w s (get_tag w k)) name b,
    there,
    sprintf-overflows 100 [] (t.path ++ b'\n' ∷ [])
        (omega (arith, long, length-append t.path (b'\n' ∷ []))),
  )

-- After an `add` of a name and an existing path of at most 98 bytes, with memory to be had, has
-- returned, `get` of that name by any registered shell replies the path and a newline, and changes
-- nothing else, if a newline or space lies behind the arguments of both.
pub get-add :
    (os os' : Os) (w w' : World) (pid q : ℤ) (s r : Shell) (tag path m m' : Bytes) (ws : List Bytes)
    → get_shell w pid ≡ some s
    → get_shell w' q ≡ some r
    → IsName tag
    → IsName path
    → has_blank m ≡ true
    → has_blank m' ≡ true
    → valid_path (os.fstatat path) ≡ true
    → os.node_alloc ≡ true
    → os.data_alloc ≡ true
    → length path ≤ 98
    → cmd_add os w pid (some (spell (tag ∷ path ∷ []) m)) ≡ ok w'
    → cmd_get os' w' q (some (spell (tag ∷ ws) m')) ≡ ok (sendto w' r.sun_path (path ++ b'\n' ∷ []))
get-add os os' w w' pid q s r tag path m m' ws e e' ht hp b b' valid n d short run =
    let all = rw run at (add-Added os w pid s e tag path m ht hp b valid n d) in
    let found : path_in w'.tags tag ≡ some path = all.paths tag ∙ rw (bytes_eq_refl tag) in
    get-answer os' w' q r tag m' ws e' ht b' (rw found short) ∙ rw found
