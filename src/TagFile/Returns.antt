-- ===== src/TagFile/Returns.antt =====
-- `read_tag_file` of src/daemon/tag.c inside its line buffer: a newline that is in the buffer stops the
-- whitespace scan there.
use nav.Base.{
  ℕ, zero, suc, ◌+◌, ◌≡◌, refl, ap, ◌<◌, Bool, true, ◌&&◌, Option, some, none, [], ◌∷◌, ◌++◌,
  append_assoc, length, drop, replicate, Bytes, arith, ◌==◌, ltb, if◌then◌else◌, Bool-cases, inl,
  inr,
}
use nav.Run.Ensures.{Returns, Returns-bind, Returns-Ensures}
use nav.CString.{Token, mem, cstr, strcmp, strtok_r}
use nav.Utils.{Stat, dup_word}
use nav.Utils.Words.{IsWord}
use nav.Utils.Terminated.{
  IsTerminated, NoneOrSafe, IsTerminated-IsRest, line-IsTerminated, strtok_r-Returns,
  dup_word-Returns,
}
use nav.ItemList.{ItemList}
use nav.Tag.{Tag}
use nav.TagFile.{
  line_of, fgets, cut, equals, line_size, read_path, read_name, read_entry, store_entry, read_round,
  read_loop, read_tag_file,
}
use nav.TagFile.Keeps.{IsTagList, length-drop, line_of_pos, read-IsTagList}

-- Every line of a text has a newline, and at most 255 bytes with it; `n` bytes of its first line are
-- read already.
unfoldable pub fits_lines : ℕ → Bytes → Bool
fits_lines n [] = n == 0
fits_lines n (c ∷ s) =
    let next_line = fits_lines 0 s in
    let more = ltb n 254 && fits_lines (suc n) s in if c == b'\n' then next_line else more

-- so is the content of a file that can be opened
abbrev pub LinesFit : Option Bytes → Type 0
LinesFit none = Unit
LinesFit (some content) = fits_lines 0 content ≡ true

-- What `fgets` reads of such a text ends with a newline, and the rest is such a text.
line_of-fits :
    (n k : ℕ) (s : Bytes)
    → n + k ≡ 254
    → 0 < n + length s
    → fits_lines n s ≡ true
    → (l : Bytes) × (line_of (suc k) s ≡ l ++ b'\n' ∷ [])
      × (fits_lines 0 (drop (length (line_of (suc k) s)) s) ≡ true)
unfolding line_of fits_lines
line_of-fits n k [] room some_byte fits = absurd (ground arith)
line_of-fits n zero (c ∷ s) room some_byte fits = elim (Bool-cases (c == b'\n')) [
  | inl z ↦ let newline : c ≡ b'\n' = ground arith in rw z ([], rw newline refl, rw z at fits)
  | inr z ↦ absurd (ground arith)
]
line_of-fits n (suc k) (c ∷ s) room some_byte fits = elim (Bool-cases (c == b'\n')) [
  | inl z ↦ let newline : c ≡ b'\n' = ground arith in rw z ([], rw newline refl, rw z at fits)
  | inr z ↦
      let (l, same, rest) = line_of-fits (suc n) k s (omega arith) (omega arith) (ground arith) in
      rw z (c ∷ l, ap (λ t. c ∷ t) same, rest)
]

read_path-Returns :
    (tag : Bytes) (t : Option Token) → NoneOrSafe t → Returns (λ _. Unit) (read_path tag t)
unfolding read_path
read_path-Returns tag none h = tt
read_path-Returns tag (some t) h =
    Returns-bind IsWord (λ _. Unit) (dup_word (mem t)) _ (dup_word-Returns (mem t) h.0) λ path _. tt

read_name-Returns : (t : Option Token) → NoneOrSafe t → Returns (λ _. Unit) (read_name t)
unfolding read_name
read_name-Returns none h = tt
read_name-Returns (some t) h =
    Returns-bind IsWord (λ _. Unit) (dup_word (mem t)) _ (dup_word-Returns (mem t) h.0)
      λ tag _.
        Returns-bind NoneOrSafe (λ _. Unit) (strtok_r (some t.save) []) _
          (strtok_r-Returns t.save [] (refl, refl) h.1) λ next safe. read_path-Returns tag next safe

read_entry-Returns : (line : Bytes) → IsTerminated line → Returns (λ _. Unit) (read_entry line)
unfolding read_entry
read_entry-Returns line h =
    Returns-bind NoneOrSafe (λ _. Unit) (strtok_r (some line) equals) _
      (strtok_r-Returns line equals (refl, refl) (IsTerminated-IsRest line h))
      λ t safe. read_name-Returns t safe

newline-IsTerminated : (line l m : Bytes) → line ≡ l ++ b'\n' ∷ [] → IsTerminated (line ++ 0 ∷ m)
newline-IsTerminated line l m same =
    rw (same, append_assoc l (b'\n' ∷ []) (0 ∷ m)) (line-IsTerminated l m)

module _ (fstatat : Bytes → Stat) (memory : ℕ → Bool) where
  -- a round with a line `m` over the buffer, before the rest of the file
  round-Returns :
      (f n : ℕ) (m rest : Bytes) (tags : ItemList Tag)
      → IsTerminated m
      → ((line : Bytes) (tags' : ItemList Tag)
          → Returns (λ _. Unit) (read_loop fstatat memory f (n + 1) line rest tags'))
      → Returns
          (λ _. Unit)
          (read_round fstatat memory n tags (some (m, rest)) (read_loop fstatat memory f (n + 1)))
  unfolding read_round
  round-Returns f n m rest tags ended next = elim (Bool-cases (strcmp (cstr m) (b'\n' ∷ []) == 0)) [
    | inl last ↦ rw (last, read_round) tt
    | inr more ↦
        rw (more, read_round)
          (Returns-bind (λ _. Unit) (λ _. Unit) (read_entry m) _ (read_entry-Returns m ended)
            λ e _. next (cut equals m) (store_entry fstatat (memory n) tags e))
  ]

  read_loop-Returns :
      (f n : ℕ) (buf content : Bytes) (tags : ItemList Tag)
      → length content < f
      → fits_lines 0 content ≡ true
      → Returns (λ _. Unit) (read_loop fstatat memory f n buf content tags)
  unfolding read_loop fgets
  read_loop-Returns zero n buf content tags en fits = absurd (omega arith)
  read_loop-Returns (suc f) n buf [] tags en fits = unfold read_round in tt
  read_loop-Returns (suc f) n buf (c ∷ s) tags en fits =
      let line = line_of 255 (c ∷ s) in
      let rest = drop (length line) (c ∷ s) in
      let after = drop (length line + 1) buf in
      let (l, same, fits') = line_of-fits 0 254 (c ∷ s) refl (omega arith) fits in
      let next_fits : length rest < f =
        omega (arith, length-drop (length line) (c ∷ s), line_of_pos 254 c s) in
      round-Returns f n (line ++ 0 ∷ after) rest tags (newline-IsTerminated line l after same)
        λ line' tags'. read_loop-Returns f (n + 1) line' rest tags' next_fits fits'

  -- If every line of the tag file ends with a newline and has at most 255 bytes with it, then reading the
  -- file into a right list of tags returns, with no access outside the line buffer, whatever lies behind it,
  -- also if nothing there can be read, and leaves a right list: distinct names, the right counter, and
  -- words as names and paths. So does a file that cannot be opened.
  pub read-Returns :
      (behind : Bytes) (tags : ItemList Tag) (file : Option Bytes)
      → LinesFit file
      → IsTagList tags
      → Returns (λ r. IsTagList r.1) (read_tag_file fstatat memory behind tags file)
  unfolding read_tag_file
  read-Returns behind tags none fits v = v
  read-Returns behind tags (some content) fits v =
      Returns-Ensures (λ r. IsTagList r.1) (read_tag_file fstatat memory behind tags (some content))
        (Returns-bind (λ _. Unit) (λ _. Unit)
          (read_loop fstatat memory (length content + 1) 0 _ content tags) _
          (read_loop-Returns (length content + 1) 0 (replicate line_size 0 ++ behind) content tags
            (omega arith) fits)
          λ tags' _. tt)
        (read-IsTagList fstatat memory behind tags (some content) v)
