-- ===== src/Tag/Keys.antt =====
-- Tags are looked up by their name.
use nav.Base.{◌≡◌, ◌↔◌, Bytes, arith}
use nav.CString.Laws.{strcmp_iff}
use nav.ItemList.Lookup.{Key}
use nav.Tag.{Tag, compare_tag_tag}

pub compare_tag_iff : (t : Tag) (k : Bytes) → (compare_tag_tag t k ≡ 0) ↔ (t.tag ≡ k)
unfolding compare_tag_tag
compare_tag_iff t k = ground (arith, strcmp_iff t.tag k)

abbrev pub tag_key : Key Tag Bytes
tag_key = record { key = λ t. t.tag; compare_func = compare_tag_tag; compare_iff = compare_tag_iff }
