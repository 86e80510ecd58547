-- ===== src/Server/Arguments.antt =====
-- The arguments of a request to a `Server` in the receive buffer, with what lies behind the message.
use nav.Base.{◌≡◌, ap, ◌∙◌, true, some, [], ◌∷◌, ◌++◌, append_assoc, All, Bytes}
use nav.Utils.Words.{has_blank}
use nav.Utils.Terminated.{IsTerminated, terminated, has_blank-IsTerminated}
use nav.Commands.Replies.{Args}
use nav.Commands.Tags.Parse.{IsName, spell}
use nav.Loop.Message.{sentence, spell-sentence}
use nav.Loop.Arguments.{args_at-word, args_at}
use nav.Server.{Request, join, quit, bind, unbind, find, push_path, words_of_request}

-- a word, a space, and anything with a space or newline in it
abbrev pub FirstWord : Bytes → Args → Type 0
FirstWord word args = (m : Bytes) × (has_blank m ≡ true) × (args ≡ some (word ++ b' ' ∷ m))

-- `add` needs its two words and no more, some commands a first word, and the others ignore their arguments
abbrev pub Carries : Request → Args → Type 0
Carries (bind tag path) args =
    (m : Bytes) × (has_blank m ≡ true) × (args ≡ some (spell (tag ∷ path ∷ []) m))
Carries (unbind tag) args = FirstWord tag args
Carries (find tag) args = FirstWord tag args
Carries (push_path path) args = FirstWord path args
Carries _ args = Unit

-- what may lie behind the message of a request
abbrev pub Suits : Request → Bytes → Type 0
Suits (bind tag path) x = (m : Bytes) × (has_blank m ≡ true) × (x ≡ 0 ∷ m)
Suits _ x = IsTerminated x

pub Suits-IsTerminated : (r : Request) (x : Bytes) → Suits r x → IsTerminated x
unfolding terminated
Suits-IsTerminated (bind tag path) x (m, blank, same) = rw same blank
Suits-IsTerminated join x h = h
Suits-IsTerminated quit x h = h
Suits-IsTerminated _ x h = h

first-FirstWord :
    (word x : Bytes)
    → IsName word
    → IsTerminated x
    → FirstWord word (args_at (sentence (word ∷ []) ++ x))
unfolding sentence
first-FirstWord word x h ends =
    let same = append_assoc word (b' ' ∷ []) x in
    (x, has_blank-IsTerminated x ends, ap args_at same ∙ args_at-word word (b' ' ∷ x) h)

-- what the message and the memory behind it carry
pub args_at-Carries :
    (r : Request) (x : Bytes)
    → All IsName (words_of_request r)
    → Suits r x
    → Carries r (args_at (sentence (words_of_request r) ++ x))
unfolding words_of_request
args_at-Carries (bind tag path) x h (m, blank, same) = (
  m,
  blank,
  rw (same, ← spell-sentence (tag ∷ path ∷ []) m) (unfold spell in args_at-word tag _ h.0),
)
args_at-Carries (unbind tag) x h ends = first-FirstWord tag x h.0 ends
args_at-Carries (find tag) x h ends = first-FirstWord tag x h.0 ends
args_at-Carries (push_path path) x h ends = first-FirstWord path x h.0 ends
args_at-Carries _ x h ends = tt
