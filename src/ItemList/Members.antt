-- ===== src/ItemList/Members.antt =====
-- What holds of every item of the list of src/daemon/list.c, through its operations.
use mathlib.Core.Path.{subst}
use nav.Base.{◌≡◌, some, List, [], ◌∷◌, All, ◌==◌, Bool-cases, inl, inr}
use nav.ItemList.{ItemList, get_first, set_first, list_get_node}
use nav.ItemList.Lookup.{Key, erase, key-get}

module _ {A K : Type 0} (c : Key A K) (P : A → Type 0) where
  open c use {compare_func}

  pub All-get :
      (k : K) (xs : List A) {x : A} → get_first compare_func k xs ≡ some x → All P xs → P x
  unfolding get_first
  All-get k [] h all = absurd (cc h)
  All-get k (y ∷ xs) h all = elim (Bool-cases (compare_func y k == 0)) [
    | inl p ↦ let same : some y ≡ some _ = rw p at h in subst P (cc same) all.0
    | inr p ↦ All-get k xs (rw p at h) all.1
  ]

  pub All-set :
      (k : K) (y : A) (xs : List A) → P y → All P xs → All P (set_first compare_func k y xs)
  unfolding set_first
  All-set k y [] py all = tt
  All-set k y (x ∷ xs) py all = elim (Bool-cases (compare_func x k == 0)) [
    | inl p ↦ rw p (py, all.1)
    | inr p ↦ rw p (all.0, All-set k y xs py all.1)
  ]

  pub All-erase : (k : K) (xs : List A) → All P xs → All P (erase c k xs)
  unfolding erase
  All-erase k [] all = tt
  All-erase k (x ∷ xs) all = elim (Bool-cases (compare_func x k == 0)) [
    | inl p ↦ rw p all.1
    | inr p ↦ rw p (all.0, All-erase k xs all.1)
  ]

  pub All-get_node :
      (l : ItemList A) (k : K) {x : A}
      → list_get_node compare_func l k ≡ some x
      → All P l.items
      → P x
  unfolding list_get_node
  All-get_node l k h all = All-get k l.items h all

module _ {A K : Type 0} (c : Key A K) where
  open c use {key, compare_func}

  pub key-get_node :
      (l : ItemList A) (k : K) {x : A} → list_get_node compare_func l k ≡ some x → key x ≡ k
  unfolding list_get_node
  key-get_node l k h = key-get c k l.items h
