-- ===== src/Commands/Tags/Map.antt =====
-- The tag list of the daemon as a map from names to paths.
use mathlib.Core.Option
use nav.Base.{
  ℕ, ◌≡◌, refl, ◌≢◌, Option, none, some, [], ◌∷◌, Bytes, bytes_eq, bytes_eq_iff, arith,
  if◌then◌else◌, Bool-cases, inl, inr,
}
use nav.ItemList.{ItemList, get_first, list_append_node, list_get_node, set_node}
use nav.ItemList.Lookup.{
  Distinct, erase, hit, get-append, get-append_ne, get-set_self, get-set_ne, get-erase_ne,
  get-erase_self,
}
use nav.ItemList.Members.{key-get_node}
use nav.Tag.{Tag, compare_tag_tag}
use nav.Tag.Keys.{tag_key}

-- the path of a tag in a list of tags
unfoldable pub path_in : ItemList Tag → Bytes → Option Bytes
path_in tags k = Option.map (λ t. t.path) (list_get_node compare_tag_tag tags k)

-- Setting a path in the list changes the path of that name only.
pub set-path_in :
    (tags : ItemList Tag) (tag path k : Bytes) (old : Tag)
    → list_get_node compare_tag_tag tags tag ≡ some old
    → path_in (set_node compare_tag_tag tags tag (record old { path = path })) k
      ≡ (if bytes_eq tag k then some path else path_in tags k)
unfolding path_in set_node list_get_node
set-path_in tags tag path k old e =
    let named : old.tag ≡ tag = key-get_node tag_key tags tag e in
    let new : Tag = record old { path = path } in
    elim (Bool-cases (bytes_eq tag k)) [
      | inl same ↦
          let k_is : tag ≡ k = (bytes_eq_iff tag k).0 same in
          rw (same, ← k_is, get-set_self tag_key tag new tags.items named e)
      | inr other ↦
          let k_not : tag ≢ k = ground (arith, bytes_eq_iff tag k) in
          rw (other, get-set_ne tag_key tag k new tags.items named k_not)
    ]

-- Appending a tag with a new name changes the path of that name only.
pub append-path_in :
    (tags : ItemList Tag) (tag path k : Bytes)
    → list_get_node compare_tag_tag tags tag ≡ none
    → path_in (list_append_node tags (record { tag = tag; path = path })) k
      ≡ (if bytes_eq tag k then some path else path_in tags k)
unfolding path_in list_append_node list_get_node get_first Option.or_else
append-path_in tags tag path k e =
    let new : Tag = record { tag = tag; path = path } in
    elim (Bool-cases (bytes_eq tag k)) [
      | inl same ↦
          let k_is : tag ≡ k = (bytes_eq_iff tag k).0 same in
          rw (same, ← k_is, get-append tag_key tag tags.items (new ∷ []), e, hit tag_key new refl)
      | inr other ↦
          let k_not : tag ≢ k = ground (arith, bytes_eq_iff tag k) in
          rw (other, get-append_ne tag_key k new tags.items k_not)
    ]

-- Taking out a tag takes out the path of that name only, where names are distinct.
pub erase-path_in :
    (tags : ItemList Tag) (tag k : Bytes) (n : ℕ)
    → Distinct tag_key tags.items
    → path_in (record { items = erase tag_key tag tags.items; n_items = n }) k
      ≡ (if bytes_eq tag k then none else path_in tags k)
unfolding path_in list_get_node
erase-path_in tags tag k n d = elim (Bool-cases (bytes_eq tag k)) [
  | inl same ↦
      let k_is : tag ≡ k = (bytes_eq_iff tag k).0 same in
      rw (same, ← k_is, get-erase_self tag_key tag tags.items d)
  | inr other ↦
      let k_not : tag ≢ k = ground (arith, bytes_eq_iff tag k) in
      rw (other, get-erase_ne tag_key tag k tags.items k_not)
]
