-- ===== src/TagFile/Entry.antt =====
-- What `read_tag_file` of src/daemon/tag.c makes of one line that `write_tag_file` wrote.
use nav.Base.{
  ℕ, zero, suc, ◌+◌, ◌-◌, ◌≡◌, refl, sym, ap, ◌∙◌, ◌≢◌, ◌<◌, false, some, [], ◌∷◌, ◌++◌,
  append_assoc, length, length-append, drop, drop-append, All, All-append, All-mono, Bytes, arith,
}
use nav.Run.{ok}
use nav.CString.{is_delim, strtok_r}
use nav.CString.Laws.{Plain, strtok-delim, strtok-nul}
use nav.Utils.{is_blank}
use nav.Utils.Words.{IsWord, has_blank, has_blank-suffix, dup_word-nul, dup_word-blank}
use nav.Tag.{Tag, tag_line}
use nav.TagFile.{line_of, fgets, equals, read_path, read_name, read_entry}

-- a byte that no word and no name of a tag may hold
abbrev pub IsNameByte : ℕ → Type 0
IsNameByte c = (c ≢ 0) × (is_blank c ≡ false) × (c ≢ b'=')

-- a name that the file can hold
abbrev pub IsTagName : Bytes → Type 0
IsTagName [] = ⊥
IsTagName (c ∷ s) = All IsNameByte (c ∷ s)

-- the line, bracketed to the right, before what follows it
line_split : (t : Tag) (m : Bytes) → tag_line t ++ m ≡ t.tag ++ (b'=' ∷ (t.path ++ (b'\n' ∷ m)))
line_split t m = simp append_assoc

-- `fgets` up to a newline
line_of-newline :
    (n : ℕ) (s m : Bytes)
    → All (λ c. c ≢ b'\n') s
    → length s < n
    → line_of n (s ++ b'\n' ∷ m) ≡ s ++ b'\n' ∷ []
unfolding line_of
line_of-newline zero s m h small = absurd (omega arith)
line_of-newline (suc n) [] m h small = refl
line_of-newline (suc n) (c ∷ s) m h small = ground (arith, h.0, line_of-newline n s m h.1)

-- what `fgets` leaves behind a line of this length
abbrev pub behind_line : Bytes → Bytes → Bytes
behind_line line buf = drop (length line + 1) buf

fgets-line_of :
    (size : ℕ) (buf content : Bytes)
    → 0 < length content
    → fgets size buf content
      ≡ some (
        line_of (size - 1) content ++ 0 ∷ behind_line (line_of (size - 1) content) buf,
        drop (length (line_of (size - 1) content)) content,
      )
unfolding fgets
fgets-line_of size buf [] h = absurd (omega arith)
fgets-line_of size buf (c ∷ content) h = refl

pub fgets-newline :
    (size : ℕ) (buf s m : Bytes)
    → All (λ c. c ≢ b'\n') s
    → length s + 1 < size
    → fgets size buf (s ++ b'\n' ∷ m)
      ≡ some (s ++ (b'\n' ∷ 0 ∷ behind_line (s ++ b'\n' ∷ []) buf), m)
fgets-newline size buf s m h small =
    let line = s ++ b'\n' ∷ [] in
    let got = line_of-newline (size - 1) s m h (omega arith) in
    let rest : drop (length line) (s ++ b'\n' ∷ m) ≡ m =
      ap (drop (length line)) (sym (append_assoc s (b'\n' ∷ []) m)) ∙ drop-append line m in
    fgets-line_of size buf (s ++ b'\n' ∷ m) (omega (arith, length-append s (b'\n' ∷ m)))
    ∙ rw (got, rest, append_assoc s (b'\n' ∷ []) (0 ∷ behind_line line buf))

name-IsWord : (s : Bytes) → IsTagName s → IsWord s
name-IsWord [] h = absurd h
name-IsWord (c ∷ s) h =
    All-mono IsNameByte (λ d. (d ≢ 0) × (is_blank d ≡ false)) (c ∷ s) (λ d p. (p.0, p.1)) h

name-Plain : (s : Bytes) → All IsNameByte s → Plain equals s
name-Plain s h =
    All-mono IsNameByte (λ d. (d ≢ 0) × (is_delim equals d ≡ false)) s
      (λ d p. (p.0, ground (arith, p.2))) h

strtok-name :
    (tag m : Bytes)
    → IsTagName tag
    → strtok_r (some (tag ++ b'=' ∷ m)) equals
      ≡ ok (some (record { text = tag; after = m; save = m }))
strtok-name [] m h = absurd h
strtok-name (c ∷ s) m h = strtok-delim equals c s m (name-Plain (c ∷ s) h) b'=' (omega arith) refl

word-Plain_nil : (s : Bytes) → IsWord s → Plain [] s
word-Plain_nil s h =
    All-mono (λ d. (d ≢ 0) × (is_blank d ≡ false)) (λ d. (d ≢ 0) × (is_delim [] d ≡ false)) s
      (λ d p. (p.0, refl)) h

-- the rest of the line, with its newline
strtok-path :
    (path m : Bytes)
    → IsWord path
    → strtok_r (some (path ++ (b'\n' ∷ 0 ∷ m))) []
      ≡ ok (some (record { text = path ++ b'\n' ∷ []; after = m; save = 0 ∷ m }))
strtok-path [] m h = strtok-nul [] b'\n' [] m ((omega arith, refl), tt)
strtok-path (c ∷ s) m h =
    ap (λ l. strtok_r (some (c ∷ l)) []) (sym (append_assoc s (b'\n' ∷ []) (0 ∷ m)))
    ∙ strtok-nul [] c (s ++ b'\n' ∷ []) m (
        All-append (λ d. (d ≢ 0) × (is_delim [] d ≡ false)) (c ∷ s) (b'\n' ∷ [])
          (word-Plain_nil (c ∷ s) h) ((omega arith, refl), tt))

-- The name and the path of a line that was written come back.
pub read_entry-line :
    (tag path m : Bytes)
    → IsTagName tag
    → IsWord path
    → read_entry (tag ++ b'=' ∷ (path ++ (b'\n' ∷ 0 ∷ m))) ≡ ok (some (tag, path))
unfolding read_entry read_name read_path
read_entry-line tag path m ht hp =
    let line = path ++ (b'\n' ∷ 0 ∷ m) in
    rw (
      strtok-name tag line ht,
      dup_word-nul tag line (name-IsWord tag ht)
          (has_blank-suffix path (b'\n' ∷ 0 ∷ m) (unfold has_blank in refl)),
      strtok-path path m hp,
      append_assoc path (b'\n' ∷ []) (0 ∷ m),
      dup_word-blank path b'\n' (0 ∷ m) hp refl,
    )
