-- ===== src/ItemList.antt =====
-- src/daemon/list.c as its clients see it: the items in order, and the counter. The functions that
-- the C list keeps in `compare_func` and `cleanup_func` are arguments, since each list keeps the
-- same two for its whole life.
pub mod Lookup
pub mod Found
pub mod Maps
pub mod Members
use nav.Base.{
  ℕ, suc, ◌+◌, ◌-◌, Option, none, some, List, [], ◌∷◌, ◌++◌, length, ◌==◌, if◌then◌else◌,
}
use mathlib.Core.Option
use nav.Run.{Run, ok, ◌>>=◌, ◌>>◌}

pub record ItemList (A : Type 0) : Type 0 where
  pub items : List A
  pub n_items : ℕ

module _ {A : Type 0} where
  abbrev pub empty : ItemList A
  empty = record { items = []; n_items = 0 }

  unfoldable pub list_append_node : ItemList A → A → ItemList A
  list_append_node l x = record { items = l.items ++ x ∷ []; n_items = l.n_items + 1 }

  unfoldable pub list_prepend_node : ItemList A → A → ItemList A
  list_prepend_node l x = record { items = x ∷ l.items; n_items = l.n_items + 1 }

  -- calls the cleanup on every item, first to last
  unfoldable pub cleanup_all : (A → Run (Unit {0})) → List A → Run (Unit {0})
  cleanup_all cleanup [] = ok tt
  cleanup_all cleanup (x ∷ xs) = do cleanup x; cleanup_all cleanup xs

  unfoldable pub list_delete_all : (A → Run (Unit {0})) → ItemList A → Run (ItemList A)
  unfolding cleanup_all
  list_delete_all cleanup l = do
    cleanup_all cleanup l.items
    ok (record { items = []; n_items = l.n_items - length l.items })

module _ {A K : Type 0} (compare_func : A → K → ℕ) where
  unfoldable pub get_first : K → List A → Option A
  get_first key [] = none
  get_first key (x ∷ xs) = if compare_func x key == 0 then some x else get_first key xs

  unfoldable pub list_get_node : ItemList A → K → Option A
  unfolding get_first
  list_get_node l key = get_first key l.items

  -- a write through the pointer that `list_get_node` returns
  unfoldable pub set_first : K → A → List A → List A
  set_first key y [] = []
  set_first key y (x ∷ xs) = if compare_func x key == 0 then y ∷ xs else x ∷ set_first key y xs

  unfoldable pub set_node : ItemList A → K → A → ItemList A
  unfolding set_first
  set_node l key y = record l { items = set_first key y l.items }

  -- the items without the first match, after its cleanup; `none` if there is no match
  unfoldable pub unlink_first : (A → Run (Unit {0})) → K → List A → Run (Option (List A))
  unlink_first cleanup key [] = ok none
  unlink_first cleanup key (x ∷ xs) =
      if compare_func x key == 0
      then (do cleanup x; ok (some xs))
      else (do r ← unlink_first cleanup key xs; ok (Option.map (λ ys. x ∷ ys) r))

  unlinked : ItemList A → Option (List A) → ℕ × ItemList A
  unlinked l none = (0, l)
  unlinked l (some xs) = (0, record { items = xs; n_items = l.n_items - 1 })

  delete_from : (A → Run (Unit {0})) → ItemList A → K → List A → Run (ℕ × ItemList A)
  unfolding unlink_first unlinked
  delete_from cleanup l key [] = ok (1, l)
  delete_from cleanup l key (x ∷ xs) = do r ← unlink_first cleanup key (x ∷ xs); ok (unlinked l r)

  -- the result is 1 for an empty list, and 0 otherwise, whether or not there was a match
  unfoldable pub list_delete_node : (A → Run (Unit {0})) → ItemList A → K → Run (ℕ × ItemList A)
  unfolding delete_from
  list_delete_node cleanup l key = delete_from cleanup l key l.items
