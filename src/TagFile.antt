-- ===== src/TagFile.antt =====
-- src/daemon/tag.c: `read_tag_file`, with `fgets` on the content of the file.
pub mod Entry
pub mod RoundTrip
pub mod Keeps
pub mod Returns
use nav.Base.{
  ℕ, zero, suc, ◌+◌, ◌-◌, Bool, true, false, ◌&&◌, Option, none, some, [], ◌∷◌, ◌++◌, Bytes, length,
  drop, replicate, ◌==◌, if◌then◌else◌,
}
use nav.Run.{Run, ok, fault, hang, ◌>>=◌}
use nav.CString.{Token, mem, cut_then, cstr, strcmp, strtok_r}
use nav.Utils.{Stat, valid_path, dup_word}
use nav.ItemList.{ItemList, list_append_node, list_get_node, set_node}
use nav.Tag.{Tag, compare_tag_tag}

-- at most `n` bytes, up to the first newline
unfoldable pub line_of : ℕ → Bytes → Bytes
line_of zero s = []
line_of (suc n) [] = []
line_of (suc n) (c ∷ s) = if c == b'\n' then c ∷ [] else c ∷ line_of n s

-- `fgets` into a buffer: the buffer with what lies behind it, and the rest of the file; `none` at the end
unfoldable pub fgets : ℕ → Bytes → Bytes → Option (Bytes × Bytes)
unfolding line_of
fgets size buf [] = none
fgets size buf (c ∷ s) =
    let line = line_of (size - 1) (c ∷ s) in
    some (line ++ 0 ∷ drop (length line + 1) buf, drop (length line) (c ∷ s))

-- what a call of `strtok_r` leaves in the memory
abbrev pub cut : Bytes → Bytes → Bytes
cut ds m = cut_then ds (λ rest. rest) m

abbrev pub equals : Bytes
equals = b'=' ∷ []

abbrev pub line_size : ℕ
line_size = 256

-- the rest of a line behind the name
unfoldable pub read_path : Bytes → Option Token → Run (Option (Bytes × Bytes))
read_path tag none = ok none
read_path tag (some t) = do path ← dup_word (mem t); ok (some (tag, path))

-- `none` if a token is missing
unfoldable pub read_name : Option Token → Run (Option (Bytes × Bytes))
unfolding read_path
read_name none = ok none
read_name (some t) = do tag ← dup_word (mem t); next ← strtok_r (some t.save) []; read_path tag next

unfoldable pub read_entry : Bytes → Run (Option (Bytes × Bytes))
unfolding read_name
read_entry line = do t ← strtok_r (some line) equals; read_name t

-- an entry for a name that is there; only a new name has its path tested
unfoldable pub put_entry :
    (Bytes → Stat) → Bool → ItemList Tag → Bytes → Bytes → Option Tag → ItemList Tag
put_entry fstatat memory tags tag path (some old) =
    set_node compare_tag_tag tags tag (record old { path = path })
put_entry fstatat memory tags tag path none =
    if valid_path (fstatat path) && memory
    then list_append_node tags (record { tag = tag; path = path })
    else tags

unfoldable pub store_entry :
    (Bytes → Stat) → Bool → ItemList Tag → Option (Bytes × Bytes) → ItemList Tag
unfolding put_entry
store_entry fstatat memory tags none = tags
store_entry fstatat memory tags (some (tag, path)) =
    put_entry fstatat memory tags tag path (list_get_node compare_tag_tag tags tag)

-- `memory` says for each line whether both calls of `malloc` succeed.
module _ (fstatat : Bytes → Stat) (memory : ℕ → Bool) where
  -- a round for what `fgets` gave; the empty line ends the loop
  unfoldable pub read_round :
      ℕ
      → ItemList Tag
      → Option (Bytes × Bytes)
      → (Bytes → Bytes → ItemList Tag → Run (ItemList Tag))
      → Run (ItemList Tag)
  unfolding store_entry
  read_round n tags none further = ok tags
  read_round n tags (some (line, rest)) further = elim (strcmp (cstr line) (b'\n' ∷ []) == 0) [
    | true ↦ ok tags
    | false ↦ do
      e ← read_entry line
      further (cut equals line) rest (store_entry fstatat (memory n) tags e)
  ]

  unfoldable pub read_loop : ℕ → ℕ → Bytes → Bytes → ItemList Tag → Run (ItemList Tag)
  unfolding read_round
  read_loop zero n line content tags = hang
  read_loop (suc f) n line content tags =
      read_round n tags (fgets line_size line content) (read_loop f (n + 1))

  -- The buffer starts with zeros; `behind` lies behind it. Each round reads a byte at least.
  unfoldable pub read_tag_file : Bytes → ItemList Tag → Option Bytes → Run (ℕ × ItemList Tag)
  unfolding read_loop
  read_tag_file behind tags none = ok (1, tags)
  read_tag_file behind tags (some content) = do
    tags' ← read_loop (length content + 1) 0 (replicate line_size 0 ++ behind) content tags
    ok (0, tags')
