-- ===== src/TagFile/Keeps.antt =====
-- The invariant of the tags under `read_tag_file` of src/daemon/tag.c, and its loop.
use nav.Base.{
  ℕ, zero, suc, ◌+◌, ◌-◌, ◌≡◌, refl, ◌<◌, Bool, ◌&&◌, Option, some, none, [], ◌∷◌, length, drop,
  All, All-append, Bytes, arith, ◌==◌, Bool-cases, inl, inr,
}
use nav.Run.{Run}
use nav.Run.Ensures.{Ensures, Ensures-bind}
use nav.CString.{Token, mem, cstr, strcmp, strtok_r}
use nav.CString.Laws.{strtok_r-ends}
use nav.Utils.{Stat, valid_path, dup_word}
use nav.Utils.Words.{IsWord, dup_word-IsWord}
use nav.ItemList.{ItemList, list_append_node, list_get_node, set_node}
use nav.ItemList.Maps.{IsMap, append-IsMap, set-IsMap}
use nav.ItemList.Members.{All-set, All-get_node, key-get_node}
use nav.Tag.{Tag, compare_tag_tag}
use nav.Tag.Keys.{tag_key}
use nav.TagFile.{
  line_of, fgets, line_size, equals, cut, read_path, read_name, read_entry, store_entry, put_entry,
  read_round, read_loop, read_tag_file,
}
use nav.Commands.Invariant.{IsTag}

-- distinct names, a right counter, and words without NUL, space and newline
abbrev pub IsTagList : ItemList Tag → Type 0
IsTagList tags = IsMap tag_key tags × All IsTag tags.items

abbrev HasWords : Option (Bytes × Bytes) → Type 0
HasWords none = Unit
HasWords (some (tag, path)) = IsWord tag × IsWord path

read_path-HasWords :
    (tag : Bytes) (t : Option Token) → IsWord tag → Ensures HasWords (read_path tag t)
unfolding read_path
read_path-HasWords tag none h = tt
read_path-HasWords tag (some t) h =
    Ensures-bind IsWord HasWords (dup_word (mem t)) _ (dup_word-IsWord (mem t)) λ path p. (h, p)

read_name-HasWords : (t : Option Token) → Ensures HasWords (read_name t)
unfolding read_name
read_name-HasWords none = tt
read_name-HasWords (some t) =
    Ensures-bind IsWord HasWords (dup_word (mem t)) _ (dup_word-IsWord (mem t)) λ tag h.
      Ensures-bind (λ _. Unit) HasWords (strtok_r (some t.save) []) _ (strtok_r-ends _ _)
        λ next _. read_path-HasWords tag next h

read_entry-HasWords : (line : Bytes) → Ensures HasWords (read_entry line)
unfolding read_entry
read_entry-HasWords line =
    Ensures-bind (λ _. Unit) HasWords (strtok_r (some line) equals) _ (strtok_r-ends _ _)
      λ t _. read_name-HasWords t

module _ (fstatat : Bytes → Stat) where
  put_entry-IsTagList :
      (memory : Bool) (tags : ItemList Tag) (tag path : Bytes) (o : Option Tag)
      → list_get_node compare_tag_tag tags tag ≡ o
      → IsWord tag
      → IsWord path
      → IsTagList tags
      → IsTagList (put_entry fstatat memory tags tag path o)
  unfolding put_entry
  put_entry-IsTagList memory tags tag path (some old) e t p (m, all) =
      let is : IsTag old = All-get_node tag_key IsTag tags tag e all in
      (
        set-IsMap tag_key tags tag (record old { path = path }) (key-get_node tag_key tags tag e) m,
        unfold set_node in
            All-set tag_key IsTag tag (record old { path = path }) tags.items
              (record { name = is.name; target = p }) all,
      )
  put_entry-IsTagList memory tags tag path none e t p (m, all) =
      let new : Tag = record { tag = tag; path = path } in
      elim (Bool-cases (valid_path (fstatat path) && memory)) [
        | inl stored ↦
            rw (stored, IsTagList)
              (
                append-IsMap tag_key tags new e m,
                unfold list_append_node in
                    All-append IsTag tags.items (new ∷ []) all
                      (record { name = t; target = p }, tt),
              )
        | inr dropped ↦ rw (dropped, IsTagList) (m, all)
      ]

  store_entry-IsTagList :
      (memory : Bool) (tags : ItemList Tag) (e : Option (Bytes × Bytes))
      → HasWords e
      → IsTagList tags
      → IsTagList (store_entry fstatat memory tags e)
  unfolding store_entry
  store_entry-IsTagList memory tags none h v = v
  store_entry-IsTagList memory tags (some (tag, path)) h v =
      put_entry-IsTagList memory tags tag path (list_get_node compare_tag_tag tags tag) refl h.0 h.1
        v

pub length-drop : (n : ℕ) (s : Bytes) → length (drop n s) ≡ length s - n
length-drop zero s = omega arith
length-drop (suc n) [] = omega arith
length-drop (suc n) (c ∷ s) = omega (arith, length-drop n s)

-- a line takes a byte at least
pub line_of_pos : (n c : ℕ) (s : Bytes) → 0 < length (line_of (suc n) (c ∷ s))
unfolding line_of
line_of_pos n c s = ground arith

-- so that the rest of the file gets shorter
fgets-rest :
    (line content m rest : Bytes)
    → fgets line_size line content ≡ some (m, rest)
    → length rest < length content
unfolding fgets
fgets-rest line [] m rest h = absurd (cc h)
fgets-rest line (c ∷ s) m rest h =
    let taken = length (line_of 255 (c ∷ s)) in
    let is : drop taken (c ∷ s) ≡ rest = cc h in
    rw (← is) (omega (arith, length-drop taken (c ∷ s), line_of_pos 254 c s))

module _ (fstatat : Bytes → Stat) (memory : ℕ → Bool) where
  read_round-IsTagList :
      (n : ℕ) (tags : ItemList Tag) (o : Option (Bytes × Bytes))
      (further : Bytes → Bytes → ItemList Tag → Run (ItemList Tag))
      → IsTagList tags
      → ((m line rest : Bytes) (tags' : ItemList Tag)
          → o ≡ some (m, rest)
          → IsTagList tags'
          → Ensures IsTagList (further line rest tags'))
      → Ensures IsTagList (read_round fstatat memory n tags o further)
  unfolding read_round
  read_round-IsTagList n tags none further v next = v
  read_round-IsTagList n tags (some (m, rest)) further v next =
      elim (Bool-cases (strcmp (cstr m) (b'\n' ∷ []) == 0)) [
        | inl last ↦ rw (last, read_round) v
        | inr more ↦
            rw (more, read_round)
              (Ensures-bind HasWords IsTagList (read_entry m) _ (read_entry-HasWords m) λ e h.
                next m (cut equals m) rest (store_entry fstatat (memory n) tags e) refl
                  (store_entry-IsTagList fstatat (memory n) tags e h v))
      ]

  read_loop-IsTagList :
      (f n : ℕ) (line content : Bytes) (tags : ItemList Tag)
      → length content < f
      → IsTagList tags
      → Ensures IsTagList (read_loop fstatat memory f n line content tags)
  unfolding read_loop
  read_loop-IsTagList zero n line content tags en v = absurd (omega arith)
  read_loop-IsTagList (suc f) n line content tags en v =
      read_round-IsTagList n tags (fgets line_size line content)
        (read_loop fstatat memory f (n + 1)) v
        λ m line' rest tags' got v'.
          read_loop-IsTagList f (n + 1) line' rest tags'
            (omega (arith, fgets-rest line content m rest got)) v'

  -- Whatever is in the file, `read_tag_file` does not loop for ever, and if it returns, the names stay
  -- distinct, the counter right, and all names and paths are without NUL, space and newline.
  pub read-IsTagList :
      (behind : Bytes) (tags : ItemList Tag) (file : Option Bytes)
      → IsTagList tags
      → Ensures (λ r. IsTagList r.1) (read_tag_file fstatat memory behind tags file)
  unfolding read_tag_file
  read-IsTagList behind tags none v = v
  read-IsTagList behind tags (some content) v =
      Ensures-bind IsTagList (λ r. IsTagList r.1)
        (read_loop fstatat memory (length content + 1) 0 _ content tags) _
        (read_loop-IsTagList (length content + 1) 0 _ content tags (omega arith) v) λ tags' v'. v'
