-- ===== src/ItemList/Lookup.antt =====
-- Lookups in the list of src/daemon/list.c, when the comparison decides the equality of a key.
use mathlib.Core.Option
use nav.Base.{
  ℕ, ◌≡◌, refl, ◌≢◌, ◌↔◌, true, false, none, some, List, [], ◌∷◌, ◌++◌, arith, ◌==◌, if◌then◌else◌,
  Bool-cases, inl, inr,
}
use nav.ItemList.{get_first, set_first}

-- `compare_func` returns 0 exactly at the items with the key
pub record Key (A K : Type 0) : Type 0 where
  pub key : A → K
  pub compare_func : A → K → ℕ
  pub compare_iff : (x : A) (k : K) → (compare_func x k ≡ 0) ↔ (key x ≡ k)

module _ {A K : Type 0} (c : Key A K) where
  open c use {key, compare_func, compare_iff}

  -- the first item with the key taken out
  unfoldable pub erase : K → List A → List A
  erase k [] = []
  erase k (x ∷ xs) = if compare_func x k == 0 then xs else x ∷ erase k xs

  -- no two items have the same key
  unfoldable pub Distinct : List A → Type 0
  Distinct [] = Unit
  Distinct (x ∷ xs) = (get_first compare_func (key x) xs ≡ none) × Distinct xs

  pub hit : (x : A) {k : K} → key x ≡ k → (compare_func x k == 0) ≡ true
  hit x {k} e = ground (arith, (compare_iff x k).1 e)

  pub miss : (x : A) (k : K) → key x ≢ k → (compare_func x k == 0) ≡ false
  miss x k ne = ground (arith, compare_iff x k)

  pub key_of_hit : (x : A) (k : K) → (compare_func x k == 0) ≡ true → key x ≡ k
  key_of_hit x k e = (compare_iff x k).0 (ground arith)

  pub ne_of_miss : (x : A) (k : K) → (compare_func x k == 0) ≡ false → key x ≢ k
  ne_of_miss x k e = ground (arith, compare_iff x k)

  pub key-get : (k : K) (xs : List A) {x : A} → get_first compare_func k xs ≡ some x → key x ≡ k
  unfolding get_first
  key-get k [] h = cc
  key-get k (x ∷ xs) h = elim (Bool-cases (compare_func x k == 0)) [
    | inl e ↦ let h' = rw e at h in cc (key_of_hit x k e, h')
    | inr e ↦ key-get k xs (rw e at h)
  ]

  -- appending
  pub get-append :
      (k : K) (xs ys : List A)
      → get_first compare_func k (xs ++ ys)
        ≡ Option.or_else (get_first compare_func k xs) (get_first compare_func k ys)
  unfolding get_first Option.or_else
  get-append k [] ys = refl
  get-append k (x ∷ xs) ys = elim (Bool-cases (compare_func x k == 0)) [
    | inl p ↦ rw p
    | inr p ↦ rw p (get-append k xs ys)
  ]

  pub get-set_self :
      (k : K) (y : A) (xs : List A) {x : A}
      → key y ≡ k
      → get_first compare_func k xs ≡ some x
      → get_first compare_func k (set_first compare_func k y xs) ≡ some y
  unfolding get_first set_first
  get-set_self k y [] e h = cc
  get-set_self k y (x ∷ xs) e h = elim (Bool-cases (compare_func x k == 0)) [
    | inl p ↦ rw p (rw (hit y e))
    | inr p ↦ rw p (rw p (get-set_self k y xs e (rw p at h)))
  ]

  pub get-set_ne :
      (k j : K) (y : A) (xs : List A)
      → key y ≡ k
      → k ≢ j
      → get_first compare_func j (set_first compare_func k y xs) ≡ get_first compare_func j xs
  unfolding get_first set_first
  get-set_ne k j y [] e ne = refl
  get-set_ne k j y (x ∷ xs) e ne = elim (Bool-cases (compare_func x k == 0)) [
    | inl p ↦ rw p (rw (miss y j (rw e ne), miss x j (rw (key_of_hit x k p) ne)))
    | inr p ↦ rw p (rw (get-set_ne k j y xs e ne))
  ]

  pub get-erase_ne :
      (k j : K) (xs : List A)
      → k ≢ j
      → get_first compare_func j (erase k xs) ≡ get_first compare_func j xs
  unfolding get_first erase
  get-erase_ne k j [] ne = refl
  get-erase_ne k j (x ∷ xs) ne = elim (Bool-cases (compare_func x k == 0)) [
    | inl p ↦ rw p (rw (miss x j (rw (key_of_hit x k p) ne)))
    | inr p ↦ rw p (rw (get-erase_ne k j xs ne))
  ]

  pub get-erase_self :
      (k : K) (xs : List A) → Distinct xs → get_first compare_func k (erase k xs) ≡ none
  unfolding get_first erase Distinct
  get-erase_self k [] d = refl
  get-erase_self k (x ∷ xs) d = elim (Bool-cases (compare_func x k == 0)) [
    | inl p ↦ rw p (rw (key_of_hit x k p) at d.0)
    | inr p ↦ rw p (rw p (get-erase_self k xs d.1))
  ]

  pub set-set :
      (k : K) (x y : A) (xs : List A)
      → key x ≡ k
      → set_first compare_func k y (set_first compare_func k x xs) ≡ set_first compare_func k y xs
  unfolding set_first
  set-set k x y [] e = refl
  set-set k x y (z ∷ xs) e = elim (Bool-cases (compare_func z k == 0)) [
    | inl p ↦ rw p (rw (hit x e))
    | inr p ↦ rw p (rw (p, set-set k x y xs e))
  ]

  pub set_same :
      (k : K) (x : A) (xs : List A)
      → get_first compare_func k xs ≡ some x
      → set_first compare_func k x xs ≡ xs
  unfolding get_first set_first
  set_same k x [] h = refl
  set_same k x (y ∷ xs) h = elim (Bool-cases (compare_func y k == 0)) [
    | inl p ↦ let same : y ≡ x = cc (rw p at h) in rw (p, same)
    | inr p ↦ rw (p, set_same k x xs (rw p at h))
  ]

  pub get-append_ne :
      (k : K) (y : A) (xs : List A)
      → key y ≢ k
      → get_first compare_func k (xs ++ y ∷ []) ≡ get_first compare_func k xs
  unfolding get_first
  get-append_ne k y [] ne = rw (miss y k ne)
  get-append_ne k y (x ∷ xs) ne = elim (Bool-cases (compare_func x k == 0)) [
    | inl p ↦ rw p
    | inr p ↦ rw p (get-append_ne k y xs ne)
  ]
