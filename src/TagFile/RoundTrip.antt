-- ===== src/TagFile/RoundTrip.antt =====
-- Reading what `write_tag_file` of src/daemon/tag.c wrote.
use nav.Base.{
  ℕ, zero, suc, ◌+◌, ◌≡◌, refl, ap, ◌∙◌, ◌≢◌, ◌≤◌, ◌<◌, Bool, true, false, Option, some, none, List,
  [], ◌∷◌, ◌++◌, append_assoc, append-nil, length, length-append, replicate, All, All-append,
  All-mono, Bytes, bytes_eq, arith, ◌==◌,
}
use nav.Run.{Run, ok}
use nav.CString.{cstr, strcmp}
use nav.Utils.{Stat, valid_path, is_blank}
use nav.Utils.Words.{IsWord}
use nav.ItemList.{ItemList, empty, get_first, list_append_node, list_get_node}
use nav.ItemList.Lookup.{Distinct}
use nav.ItemList.Maps.{IsMap, Distinct-before}
use nav.Tag.{Tag, tag_line, tag_lines, compare_tag_tag, write_tag_file}
use nav.Tag.Keys.{tag_key}
use nav.TagFile.{
  fgets, line_size, equals, cut, read_entry, store_entry, put_entry, read_round, read_loop,
  read_tag_file,
}
use nav.TagFile.Entry.{IsTagName, IsNameByte, behind_line, fgets-newline, read_entry-line}

-- a tag that the file can hold: it has a name with no `=`, its line fits the buffer, and its path is there
pub record IsWritable (fstatat : Bytes → Stat) (t : Tag) : Type 0 where
  pub name : IsTagName t.tag
  pub target : IsWord t.path
  pub short : length t.tag + length t.path ≤ 253
  pub there : valid_path (fstatat t.path) ≡ true

no_newline : (s : Bytes) → IsWord s → All (λ c. c ≢ b'\n') s
no_newline s h =
    All-mono (λ c. (c ≢ 0) × (is_blank c ≡ false)) (λ c. c ≢ b'\n') s (λ c p. ground (arith, p.1)) h

name-no_newline : (s : Bytes) → IsTagName s → All (λ c. c ≢ b'\n') s
name-no_newline [] h = absurd h
name-no_newline (c ∷ s) h =
    All-mono IsNameByte (λ d. d ≢ b'\n') (c ∷ s) (λ d p. ground (arith, p.1)) h

-- a line that begins with a name is not the empty line
not_last : (s m : Bytes) → IsTagName s → (strcmp (cstr (s ++ m)) (b'\n' ∷ []) == 0) ≡ false
unfolding strcmp cstr bytes_eq
not_last [] m h = absurd h
not_last (c ∷ s) m h = ground (arith, h.0)

module _ (fstatat : Bytes → Stat) (memory : ℕ → Bool) (enough : (n : ℕ) → memory n ≡ true) where
  store-new :
      (n : ℕ) (tags : ItemList Tag) (t : Tag)
      → list_get_node compare_tag_tag tags t.tag ≡ none
      → valid_path (fstatat t.path) ≡ true
      → store_entry fstatat (memory n) tags (some (t.tag, t.path)) ≡ list_append_node tags t
  unfolding store_entry put_entry
  store-new n tags t new there = rw (new, there, enough n)

  module _ (n : ℕ) (buf : Bytes) (tags : ItemList Tag)
      (further : Bytes → Bytes → ItemList Tag → Run (ItemList Tag)) where
    round_last :
        read_round fstatat memory n tags (fgets line_size buf (b'\n' ∷ [])) further ≡ ok tags
    unfolding read_round fgets cstr strcmp bytes_eq
    round_last = refl

    round-entry :
        (line rest : Bytes) (e : Option (Bytes × Bytes))
        → (strcmp (cstr line) (b'\n' ∷ []) == 0) ≡ false
        → read_entry line ≡ ok e
        → read_round fstatat memory n tags (some (line, rest)) further
          ≡ further (cut equals line) rest (store_entry fstatat (memory n) tags e)
    unfolding read_round
    round-entry line rest e other got = rw (other, read_round) (rw got)

    -- the round of a written line appends its tag
    round-line :
        (t : Tag) (rest : Bytes)
        → IsWritable fstatat t
        → list_get_node compare_tag_tag tags t.tag ≡ none
        → (line : Bytes) × (read_round fstatat memory n tags
              (fgets line_size buf (tag_line t ++ rest))
              further
            ≡ further line rest (list_append_node tags t))
    round-line t rest v new =
        let s = t.tag ++ (b'=' ∷ t.path) in
        let whole : tag_line t ++ rest ≡ s ++ b'\n' ∷ rest = simp append_assoc in
        let plain =
          All-append (λ c. c ≢ b'\n') t.tag (b'=' ∷ t.path) (name-no_newline t.tag v.name)
            (omega arith, no_newline t.path v.target) in
        let small : length s + 1 < line_size =
          omega (arith, v.short, length-append t.tag (b'=' ∷ t.path)) in
        let m = behind_line (s ++ b'\n' ∷ []) buf in
        let line = t.tag ++ b'=' ∷ (t.path ++ (b'\n' ∷ 0 ∷ m)) in
        let buffer : s ++ (b'\n' ∷ 0 ∷ m) ≡ line =
          append_assoc t.tag (b'=' ∷ t.path) (b'\n' ∷ 0 ∷ m) in
        (
          cut equals line,
          rw (whole, fgets-newline line_size buf s rest plain small, buffer)
              (round-entry line rest (some (t.tag, t.path))
                  (not_last t.tag (b'=' ∷ (t.path ++ (b'\n' ∷ 0 ∷ m))) v.name)
                  (read_entry-line t.tag t.path m v.name v.target)
                ∙ ap (further (cut equals line) rest) (store-new n tags t new v.there)),
        )

  read_loop-lines :
      (f n : ℕ) (buf : Bytes) (ts : List Tag) (acc : ItemList Tag)
      → length ts < f
      → All (IsWritable fstatat) ts
      → Distinct tag_key (acc.items ++ ts)
      → read_loop fstatat memory f n buf (tag_lines ts) acc
        ≡ ok (record { items = acc.items ++ ts; n_items = acc.n_items + length ts })
  unfolding read_loop tag_lines list_append_node
  read_loop-lines zero n buf ts acc en h d = absurd (omega arith)
  read_loop-lines (suc f) n buf [] acc en h d =
      round_last n buf acc (read_loop fstatat memory f (n + 1))
      ∙ rw (append-nil acc.items, let same : acc.n_items + 0 ≡ acc.n_items = omega arith in same)
  read_loop-lines (suc f) n buf (t ∷ ts) acc en h d =
      let new = Distinct-before tag_key acc.items ts t d in
      let (line, step) =
        round-line n buf acc (read_loop fstatat memory f (n + 1)) t (tag_lines ts) h.0
          (unfold list_get_node in new) in
      let joined = append_assoc acc.items (t ∷ []) ts in
      step
      ∙ read_loop-lines f (n + 1) line ts (list_append_node acc t) (omega arith) h.1 (rw joined d)
      ∙ rw (
        joined,
        let count : acc.n_items + 1 + length ts ≡ acc.n_items + suc (length ts) = omega arith in
            count,
      )

  length-tag_lines : (ts : List Tag) → length ts < length (tag_lines ts)
  unfolding tag_lines
  length-tag_lines [] = omega arith
  length-tag_lines (t ∷ ts) = omega (
    arith,
    length-tag_lines ts,
    length-append (tag_line t) (tag_lines ts),
    length-append (t.tag ++ b'=' ∷ t.path) (b'\n' ∷ []),
  )

  -- If the tag file can be written, and every tag has a name without `=`, a line of at most 255 bytes
  -- and a path that exists when the file is read, with memory to be had, then reading what
  -- `write_tag_file` wrote returns 0 and the same tags in the same order.
  pub read-write :
      (behind : Bytes) (tags : ItemList Tag) (old : Option Bytes)
      → IsMap tag_key tags
      → All (IsWritable fstatat) tags.items
      → read_tag_file fstatat memory behind empty (write_tag_file true tags old).1 ≡ ok (0, tags)
  unfolding read_tag_file write_tag_file
  read-write behind tags old v h =
      rw
        (read_loop-lines (length (tag_lines tags.items) + 1) 0 (replicate line_size 0 ++ behind)
          tags.items empty (omega (arith, length-tag_lines tags.items)) h v.distinct)
        (ap (λ (k : ℕ). ok (0, record { items = tags.items; n_items = k }))
          (omega (arith, v.counted)))

  equals_moves :
      (a b path : Bytes)
      → tag_line (record { tag = a ++ (b'=' ∷ b); path = path })
        ≡ tag_line (record { tag = a; path = b ++ (b'=' ∷ path) })
  equals_moves a b path = simp append_assoc

  -- A tag whose name holds a `=` does not survive: what was written for `a=b` is read as the tag `a` with
  -- `b=` before the path, for names and paths that fit and are words, if that path exists.
  pub read_equals :
      (behind a b path : Bytes) (old : Option Bytes)
      → IsWritable fstatat (record { tag = a; path = b ++ (b'=' ∷ path) })
      → read_tag_file fstatat memory behind empty
          (write_tag_file true
            (record { items = record { tag = a ++ (b'=' ∷ b); path = path } ∷ []; n_items = 1 })
            old).1
        ≡ ok (0, record { items = record { tag = a; path = b ++ (b'=' ∷ path) } ∷ []; n_items = 1 })
  unfolding write_tag_file tag_lines
  read_equals behind a b path old h = rw (equals_moves a b path) (
      read-write behind
        (record { items = record { tag = a; path = b ++ (b'=' ∷ path) } ∷ []; n_items = 1 }) old
        (record { counted = refl; distinct = unfold Distinct get_first in (refl, tt) }) (h, tt))
