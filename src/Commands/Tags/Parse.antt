-- ===== src/Commands/Tags/Parse.antt =====
-- What the tag commands read from the arguments that the client sends: words with a space behind each.
use nav.Base.{
  ◌≡◌, refl, ◌≢◌, true, false, some, none, List, [], ◌∷◌, ◌++◌, All, All-mono, Bytes, arith,
}
use nav.Run.{Run, ok}
use nav.CString.{is_delim, strtok_r}
use nav.CString.Laws.{Plain, strtok-delim}
use nav.Utils.{is_blank, dup_word}
use nav.Utils.Words.{IsWord, has_blank, has_blank-suffix, dup_word-nul}
use nav.World.{World}
use nav.Commands.Tags.{
  AddArgs, too_many, too_few, pair, space, add_args, first_token, second_token, last_token, tag_arg,
  tag_token,
}

-- a word with a first byte
abbrev pub IsName : Bytes → Type 0
IsName [] = ⊥
IsName (c ∷ s) = IsWord (c ∷ s)

-- the arguments as the client prints them, then the NUL and what lies behind it in the buffer
unfoldable pub spell : List Bytes → Bytes → Bytes
spell [] m = 0 ∷ m
spell (w ∷ ws) m = w ++ b' ' ∷ spell ws m

word-Plain : (s : Bytes) → IsWord s → Plain space s
word-Plain s h =
    All-mono (λ c. (c ≢ 0) × (is_blank c ≡ false)) (λ c. (c ≢ 0) × (is_delim space c ≡ false)) s
      (λ c p. (p.0, ground arith)) h

pub strtok-word :
    (w m : Bytes)
    → IsName w
    → strtok_r (some (w ++ b' ' ∷ m)) space ≡ ok (some (record { text = w; after = m; save = m }))
strtok-word [] m h = absurd h
strtok-word (c ∷ s) m h = strtok-delim space c s m (word-Plain (c ∷ s) h) b' ' (omega arith) refl

strtok-end : (m : Bytes) → strtok_r (some (0 ∷ m)) space ≡ ok none
unfolding strtok_r
strtok-end m = refl

pub IsName-IsWord : (w : Bytes) → IsName w → IsWord w
IsName-IsWord [] h = absurd h
IsName-IsWord (c ∷ s) h = h

has_blank-spell : (ws : List Bytes) (m : Bytes) → has_blank m ≡ true → has_blank (spell ws m) ≡ true
unfolding spell has_blank
has_blank-spell [] m h = h
has_blank-spell (w ∷ ws) m h = has_blank-suffix w (b' ' ∷ spell ws m) refl

-- the copy of a token is its text
dup_token :
    (w : Bytes) (ws : List Bytes) (m : Bytes)
    → IsName w
    → has_blank m ≡ true
    → dup_word (w ++ 0 ∷ spell ws m) ≡ ok w
dup_token w ws m h b = dup_word-nul w (spell ws m) (IsName-IsWord w h) (has_blank-spell ws m b)

-- what `add` makes of a list of words
unfoldable pub words_of : List Bytes → AddArgs
words_of (tag ∷ path ∷ []) = pair tag path
words_of (tag ∷ path ∷ more ∷ _) = too_many
words_of _ = too_few

-- From words with a space behind each, with a newline or space behind the NUL, `add` reads the name
-- and the path if there are two of them, and otherwise that there are too many or too few.
pub add_args-spell :
    (ws : List Bytes) (m : Bytes)
    → All IsName ws
    → has_blank m ≡ true
    → add_args (some (spell ws m)) ≡ ok (words_of ws)
unfolding add_args first_token second_token last_token words_of spell
add_args-spell [] m h b = rw (strtok-end m)
add_args-spell (t ∷ []) m h b =
    rw (strtok-word t (spell [] m) h.0, dup_token t [] m h.0 b, strtok-end m)
add_args-spell (t ∷ p ∷ []) m h b = rw (
  strtok-word t (spell (p ∷ []) m) h.0,
  dup_token t (p ∷ []) m h.0 b,
  strtok-word p (spell [] m) h.1.0,
  dup_token p [] m h.1.0 b,
  strtok-end m,
)
add_args-spell (t ∷ p ∷ q ∷ ws) m h b = rw (
  strtok-word t (spell (p ∷ q ∷ ws) m) h.0,
  dup_token t (p ∷ q ∷ ws) m h.0 b,
  strtok-word p (spell (q ∷ ws) m) h.1.0,
  dup_token p (q ∷ ws) m h.1.0 b,
  strtok-word q (spell ws m) h.1.1.0,
)

-- `delete` and `get` use the first word, which has a space behind it, and ignore what follows.
pub tag_arg-first :
    (w : World) (tag m : Bytes) (body : Bytes → Run World)
    → IsName tag
    → has_blank m ≡ true
    → tag_arg w (some (tag ++ b' ' ∷ m)) body ≡ body tag
unfolding tag_arg tag_token
tag_arg-first w tag m body h b =
    rw (strtok-word tag m h, dup_word-nul tag m (IsName-IsWord tag h) b)

pub tag_arg-spell :
    (w : World) (tag : Bytes) (ws : List Bytes) (m : Bytes) (body : Bytes → Run World)
    → IsName tag
    → has_blank m ≡ true
    → tag_arg w (some (spell (tag ∷ ws) m)) body ≡ body tag
unfolding spell
tag_arg-spell w tag ws m body h b = tag_arg-first w tag (spell ws m) body h (has_blank-spell ws m b)
