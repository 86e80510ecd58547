-- ===== src/Tag.antt =====
-- src/daemon/tag.h, tag.c: tags, their comparison, and the tag file.
pub mod Keys
use nav.Base.{
  ℕ, Bool, true, Option, none, some, List, [], ◌∷◌, ◌++◌, Bytes, codes, ◌==◌, if◌then◌else◌,
}
use nav.Run.{Run, ok}
use nav.CString.{strcmp}
use nav.ItemList.{ItemList}

pub record Tag : Type 0 where
  pub tag : Bytes
  pub path : Bytes

unfoldable pub compare_tag_tag : Tag → Bytes → ℕ
compare_tag_tag t key = if strcmp t.tag key == 0 then 0 else 1

unfoldable pub cleanup_tag : Tag → Run (Unit {0})
cleanup_tag t = ok tt

-- `"%s=%s\n"`
abbrev pub tag_line : Tag → Bytes
tag_line t = t.tag ++ b'=' ∷ t.path ++ b'\n' ∷ []

unfoldable pub tag_lines : List Tag → Bytes
tag_lines [] = b'\n' ∷ []
tag_lines (t ∷ ts) = tag_line t ++ tag_lines ts

-- The result, and the tag file afterwards; `fopen` says whether the file can be opened for writing.
unfoldable pub write_tag_file : (fopen : Bool) → ItemList Tag → Option Bytes → ℕ × Option Bytes
write_tag_file fopen tags old = if fopen then (0, some (tag_lines tags.items)) else (1, old)
