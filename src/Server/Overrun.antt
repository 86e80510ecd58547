-- ===== src/Server/Overrun.antt =====
-- The whitespace scan of the tag commands in src/daemon/commands.c over the receive buffer: `strtok_r` has
-- written a NUL over the space that the client put behind the word.
use nav.Base.{
  ◌^◌, ◌≡◌, refl, ap, ◌∙◌, ◌≤◌, ◌<◌, true, false, some, List, [], ◌∷◌, ◌++◌, append_assoc, All,
  Bytes, ℤ, drop, length, pos, arith,
}
use nav.Run.{Run, fault}
use nav.Utils.{dup_word}
use nav.Utils.Words.{
  IsWord, has_blank, has_blank-append, has_blank-suffix, dup_word-fault, dup_word-nul,
}
use nav.Utils.Terminated.{has_nul}
use nav.Shell.{Shell}
use nav.World.{World, Os}
use nav.Commands.Replies.{get_shell}
use nav.Commands.Tags.{
  get_tag, add_args, first_token, second_token, cmd_add, delete_tag, cmd_delete, tag_arg, send_path,
  cmd_get,
}
use nav.Commands.Tags.Parse.{IsName, IsName-IsWord, strtok-word}
use nav.Commands.Dispatch.{cmd_func, cmd_name}
use nav.Commands.Dispatch.Table.{dispatch-name}
use nav.Loop.{round}
use nav.Loop.Message.{sentence}
use nav.Loop.Arguments.{args_at, args_at-word, round-args}
use nav.Loop.Buffer.{rounds}
use nav.Server.{Request, bind, unbind, find, command_of, words_of_request}
use nav.Server.Rounds.{Turn, message_of, cmd_name-IsName}

-- what `add`, `delete` and `get` ask for
abbrev pub NamesTag : Request → Type 0
NamesTag (bind tag path) = Unit
NamesTag (unbind tag) = Unit
NamesTag (find tag) = Unit
NamesTag _ = ⊥

word-no_blank : (s : Bytes) → IsWord s → has_blank s ≡ false
unfolding has_blank
word-no_blank [] h = refl
word-no_blank (c ∷ s) h = ground (arith, h.0.1, word-no_blank s h.1)

module _ (m : Bytes) (no_blank : has_blank m ≡ false) where
  -- the copy of a word whose space is a NUL now
  dup_word-leaves : (s : Bytes) → IsName s → dup_word (s ++ 0 ∷ m) ≡ fault
  dup_word-leaves s h = dup_word-fault (s ++ 0 ∷ m) (
      has_blank-append s (0 ∷ m)
      ∙ rw (word-no_blank s (IsName-IsWord s h)) (unfold has_blank in no_blank))

  tag_arg-leaves :
      (w : World) (tag : Bytes) (body : Bytes → Run World)
      → IsName tag
      → tag_arg w (some (tag ++ b' ' ∷ m)) body ≡ fault
  unfolding tag_arg
  tag_arg-leaves w tag body h = rw (strtok-word tag m h, dup_word-leaves tag h)

  add_args-leaves :
      (tag path : Bytes)
      → IsName tag
      → IsName path
      → add_args (some (tag ++ b' ' ∷ (path ++ b' ' ∷ m))) ≡ fault
  unfolding add_args first_token second_token
  add_args-leaves tag path ht hp =
      let later = has_blank-suffix path (b' ' ∷ m) (unfold has_blank in refl) in
      rw (
        strtok-word tag (path ++ b' ' ∷ m) ht,
        dup_word-nul tag (path ++ b' ' ∷ m) (IsName-IsWord tag ht) later,
        strtok-word path m hp,
        dup_word-leaves path hp,
      )

  handler-leaves :
      (os : Os) (w : World) (pid : ℤ) (s : Shell) (r : Request)
      → get_shell w pid ≡ some s
      → NamesTag r
      → All IsName (words_of_request r)
      → cmd_func (command_of r) os w pid (args_at (sentence (words_of_request r) ++ m)) ≡ fault
  unfolding cmd_func cmd_add cmd_delete cmd_get command_of words_of_request sentence
  handler-leaves os w pid s (bind tag path) e h names =
      let words : (tag ++ b' ' ∷ (path ++ b' ' ∷ [])) ++ m ≡ tag ++ b' ' ∷ (path ++ b' ' ∷ m) =
        append_assoc tag (b' ' ∷ (path ++ b' ' ∷ [])) m
        ∙ ap (λ l. tag ++ b' ' ∷ l) (append_assoc path (b' ' ∷ []) m) in
      rw (
        words,
        args_at-word tag (b' ' ∷ (path ++ b' ' ∷ m)) names.0,
        e,
        add_args-leaves tag path names.0 names.1.0,
      )
  handler-leaves os w pid s (unbind tag) e h names = rw (
    append_assoc tag (b' ' ∷ []) m,
    args_at-word tag (b' ' ∷ m) names.0,
    e,
    tag_arg-leaves w tag (λ k. delete_tag os w s k (get_tag w k)) names.0,
  )
  handler-leaves os w pid s (find tag) e h names = rw (
    append_assoc tag (b' ' ∷ []) m,
    args_at-word tag (b' ' ∷ m) names.0,
    e,
    tag_arg-leaves w tag (λ k. send_path w s (get_tag w k)) names.0,
  )
  handler-leaves os w pid s _ e h names = absurd h

-- The daemon reads past the end of its receive buffer for an ordinary `add`, `delete` or `get` of a
-- registered shell, if behind the place where the message ends the buffer holds a NUL, and neither it nor
-- the memory behind it that can be read holds a space or newline. The message has at most 100
-- bytes, its words no NUL, space or newline, and the process id is below 2^31.
pub tag_request-leaves :
    (t : Turn) (ds : List (Os × Bytes)) (w : World) (s : Shell) (buf m : Bytes)
    → NamesTag t.request
    → get_shell w (pos t.pid) ≡ some s
    → t.pid < 2 ^ 31
    → All IsName (words_of_request t.request)
    → length (message_of t) ≤ 100
    → drop (length (message_of t)) buf ≡ m
    → has_nul m ≡ true
    → has_blank m ≡ false
    → rounds ((t.os, message_of t) ∷ ds) w buf ≡ fault
unfolding rounds
tag_request-leaves t ds w s buf m h e small names short behind nul no_blank =
    let words = words_of_request t.request in
    let args = args_at (sentence words ++ m) in
    let cmd_str = cmd_name (command_of t.request) in
    let run : round t.os w buf (message_of t) ≡ fault =
      round-args t.os w t.pid cmd_str words buf m small (cmd_name-IsName (command_of t.request))
        short behind nul
      ∙ rw
          (
            dispatch-name t.os w (pos t.pid) args (command_of t.request),
            handler-leaves m no_blank t.os w (pos t.pid) s t.request e h names,
          )
          refl in
    rw run refl
