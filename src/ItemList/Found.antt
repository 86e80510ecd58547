-- ===== src/ItemList/Found.antt =====
-- Where no two items of the list of src/daemon/list.c have the same key, a lookup finds each of them.
use nav.Base.{◌≡◌, refl, sym, ◌≢◌, none, some, List, [], ◌∷◌, All, ◌==◌, Bool-cases, inl, inr}
use nav.ItemList.{get_first}
use nav.ItemList.Lookup.{Key, Distinct, hit, miss, ne_of_miss}

module _ {A K : Type 0} (c : Key A K) where
  open c use {key, compare_func}

  absent-All : (k : K) (xs : List A) → get_first compare_func k xs ≡ none → All (λ x. k ≢ key x) xs
  unfolding get_first
  absent-All k [] e = tt
  absent-All k (x ∷ xs) e = elim (Bool-cases (compare_func x k == 0)) [
    | inl p ↦ let e' = rw p at e in absurd (cc e')
    | inr p ↦ (λ same. ne_of_miss c x k p (sym same), absent-All k xs (rw p at e))
  ]

  -- with one item more in front
  found_behind :
      (x : A) (xs ys : List A)
      → All (λ y. key x ≢ key y) ys
      → All (λ y. get_first compare_func (key y) xs ≡ some y) ys
      → All (λ y. get_first compare_func (key y) (x ∷ xs) ≡ some y) ys
  unfolding get_first
  found_behind x xs [] other found = tt
  found_behind x xs (y ∷ ys) other found =
      (rw (miss c x (key y) other.0) found.0, found_behind x xs ys other.1 found.1)

  pub found-All :
      (xs : List A) → Distinct c xs → All (λ x. get_first compare_func (key x) xs ≡ some x) xs
  unfolding get_first Distinct
  found-All [] d = tt
  found-All (x ∷ xs) d =
      (rw (hit c x refl), found_behind x xs xs (absent-All (key x) xs d.0) (found-All xs d.1))
