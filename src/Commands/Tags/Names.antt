-- ===== src/Commands/Tags/Names.antt =====
-- The order of the tags: a new one is the last, and the others stay where they are.
use mathlib.Core.List.{map, map-append}
use nav.Base.{
  ◌≡◌, refl, ap, true, false, Option, none, some, List, [], ◌∷◌, ◌++◌, Bytes, bytes_eq, ◌==◌, arith,
  if◌then◌else◌, Bool-cases, inl, inr,
}
use nav.CString.{strcmp}
use nav.ItemList.{ItemList, get_first, set_first, list_append_node, list_get_node, set_node}
use nav.ItemList.Lookup.{erase}
use nav.Tag.{Tag, compare_tag_tag}
use nav.Tag.Keys.{tag_key}

abbrev pub names : List Tag → List Bytes
names ts = map (λ t. t.tag) ts

-- a name that has no path yet
abbrev pub with_name : Bytes → Option Bytes → List Bytes → List Bytes
with_name tag none ns = ns ++ tag ∷ []
with_name tag (some path) ns = ns

abbrev pub without_name : Bytes → List Bytes → List Bytes
without_name tag [] = []
without_name tag (n ∷ ns) = if bytes_eq n tag then ns else n ∷ without_name tag ns

pub names-set :
    (ts : List Tag) (tag path : Bytes) (old : Tag)
    → get_first compare_tag_tag tag ts ≡ some old
    → names (set_first compare_tag_tag tag (record old { path = path }) ts) ≡ names ts
unfolding get_first set_first
names-set [] tag path old e = refl
names-set (t ∷ ts) tag path old e = elim (Bool-cases (compare_tag_tag t tag == 0)) [
  | inl p ↦ let same : t ≡ old = cc (rw p at e) in rw (p, ← same)
  | inr p ↦ rw p (ap (λ ns. t.tag ∷ ns) (names-set ts tag path old (rw p at e)))
]

pub names-erase :
    (ts : List Tag) (tag : Bytes) → names (erase tag_key tag ts) ≡ without_name tag (names ts)
unfolding erase
names-erase [] tag = refl
names-erase (t ∷ ts) tag = elim (Bool-cases (bytes_eq t.tag tag)) [
  | inl p ↦
      let hit : (compare_tag_tag t tag == 0) ≡ true =
        unfold compare_tag_tag strcmp in ground arith in
      rw (hit, p)
  | inr p ↦
      let miss : (compare_tag_tag t tag == 0) ≡ false =
        unfold compare_tag_tag strcmp in ground arith in
      rw (miss, p) (ap (λ ns. t.tag ∷ ns) (names-erase ts tag))
]

-- what the two ways of `add`, and `delete`, make of the names
pub names-set_node :
    (tags : ItemList Tag) (tag path : Bytes) (old : Tag)
    → list_get_node compare_tag_tag tags tag ≡ some old
    → names (set_node compare_tag_tag tags tag (record old { path = path })).items
      ≡ names tags.items
unfolding set_node list_get_node
names-set_node tags tag path old e = names-set tags.items tag path old e

pub names-append_node :
    (tags : ItemList Tag) (tag path : Bytes)
    → names (list_append_node tags (record { tag = tag; path = path })).items
      ≡ names tags.items ++ tag ∷ []
unfolding list_append_node
names-append_node tags tag path =
    map-append (λ t. t.tag) tags.items (record { tag = tag; path = path } ∷ [])
