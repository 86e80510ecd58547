-- ===== src/ItemList/Maps.antt =====
-- The list of src/daemon/list.c as a finite map: what each operation does to the counter and to the
-- distinctness of keys.
use mathlib.Core.Option
use nav.Base.{
  suc, ◌-◌, ◌≡◌, refl, sym, ap, ◌∙◌, ◌≢◌, none, some, List, [], ◌∷◌, ◌++◌, length, length-append,
  arith, ◌==◌, Bool-cases, inl, inr,
}
use nav.Run.{Run, ok}
use nav.ItemList.{
  ItemList, empty, list_append_node, get_first, list_get_node, set_first, set_node, unlink_first,
  delete_from, list_delete_node,
}
use nav.ItemList.Lookup.{
  Key, erase, Distinct, get-append, get-erase_ne, miss, key_of_hit, hit, ne_of_miss,
}

module _ {A K : Type 0} (c : Key A K) where
  open c use {key, compare_func, compare_iff}

  pub record IsMap (l : ItemList A) : Type 0 where
    pub counted : l.n_items ≡ length l.items
    pub distinct : Distinct c l.items

  Distinct-append :
      (xs : List A) (y : A)
      → get_first compare_func (key y) xs ≡ none
      → Distinct c xs
      → Distinct c (xs ++ y ∷ [])
  unfolding get_first Distinct Option.or_else
  Distinct-append [] y new d = (refl, tt)
  Distinct-append (x ∷ xs) y new d = elim (Bool-cases (compare_func x (key y) == 0)) [
    | inl p ↦ absurd (cc (rw p at new))
    | inr p ↦ (
      rw (
        get-append c (key x) xs (y ∷ []),
        d.0,
        miss c y (key x) (λ e. ne_of_miss c x (key y) p (sym e)),
      ),
      Distinct-append xs y (rw p at new) d.1,
    )
  ]

  length-set : (k : K) (y : A) (xs : List A) → length (set_first compare_func k y xs) ≡ length xs
  unfolding set_first
  length-set k y [] = refl
  length-set k y (x ∷ xs) = elim (Bool-cases (compare_func x k == 0)) [
    | inl p ↦ rw p
    | inr p ↦ rw p (ap suc (length-set k y xs))
  ]

  same_test : (x y : A) (j : K) → key x ≡ key y → (compare_func x j == 0) ≡ (compare_func y j == 0)
  same_test x y j e = ground (arith, compare_iff x j, compare_iff y j)

  -- setting an item with the same key adds no key
  get-set_key :
      (k j : K) (y : A) (xs : List A)
      → key y ≡ k
      → get_first compare_func j xs ≡ none
      → get_first compare_func j (set_first compare_func k y xs) ≡ none
  unfolding get_first set_first
  get-set_key k j y [] e h = refl
  get-set_key k j y (x ∷ xs) e h = elim (Bool-cases (compare_func x k == 0)) [
    | inl p ↦
        rw (p, same_test y x j (e ∙ sym (key_of_hit c x k p)))
          (elim (Bool-cases (compare_func x j == 0)) [
            | inl q ↦ absurd (cc (rw q at h))
            | inr q ↦ rw q (rw q at h)
          ])
    | inr p ↦ rw p (elim (Bool-cases (compare_func x j == 0)) [
      | inl q ↦ absurd (cc (rw q at h))
      | inr q ↦ rw q (get-set_key k j y xs e (rw q at h))
    ])
  ]

  Distinct-set :
      (k : K) (y : A) (xs : List A)
      → key y ≡ k
      → Distinct c xs
      → Distinct c (set_first compare_func k y xs)
  unfolding set_first Distinct
  Distinct-set k y [] e d = tt
  Distinct-set k y (x ∷ xs) e d = elim (Bool-cases (compare_func x k == 0)) [
    | inl p ↦ rw p (rw (e, ← key_of_hit c x k p) d.0, d.1)
    | inr p ↦ rw p (get-set_key k (key x) y xs e d.0, Distinct-set k y xs e d.1)
  ]

  Distinct-erase : (k : K) (xs : List A) → Distinct c xs → Distinct c (erase c k xs)
  unfolding erase Distinct
  Distinct-erase k [] d = tt
  Distinct-erase k (x ∷ xs) d = elim (Bool-cases (compare_func x k == 0)) [
    | inl p ↦ rw p d.1
    | inr p ↦ rw p (
      rw (get-erase_ne c k (key x) xs (λ e. ne_of_miss c x k p (sym e))) d.0,
      Distinct-erase k xs d.1,
    )
  ]

  length-erase :
      (k : K) (xs : List A) {x : A}
      → get_first compare_func k xs ≡ some x
      → suc (length (erase c k xs)) ≡ length xs
  unfolding erase get_first
  length-erase k [] h = cc
  length-erase k (x ∷ xs) h = elim (Bool-cases (compare_func x k == 0)) [
    | inl p ↦ rw p
    | inr p ↦ rw p (ap suc (length-erase k xs (rw p at h)))
  ]

  unlink-erase :
      (cleanup : A → Run (Unit {0})) (k : K) (xs : List A) (x : A)
      → get_first compare_func k xs ≡ some x
      → cleanup x ≡ ok tt
      → unlink_first compare_func cleanup k xs ≡ ok (some (erase c k xs))
  unfolding unlink_first erase get_first
  unlink-erase cleanup k [] x h e = cc
  unlink-erase cleanup k (y ∷ xs) x h e = elim (Bool-cases (compare_func y k == 0)) [
    | inl p ↦ let same : y ≡ x = cc (rw p at h) in rw p (rw (same, e))
    | inr p ↦ rw p (rw (unlink-erase cleanup k xs x (rw p at h) e))
  ]

  delete_items :
      (cleanup : A → Run (Unit {0})) (k : K) (l : ItemList A) (xs : List A) (x : A)
      → get_first compare_func k xs ≡ some x
      → cleanup x ≡ ok tt
      → delete_from compare_func cleanup l k xs
        ≡ ok (0, record { items = erase c k xs; n_items = l.n_items - 1 })
  unfolding delete_from
  delete_items cleanup k l [] x h e = absurd (unfold get_first in cc)
  delete_items cleanup k l (y ∷ ys) x h e = rw (unlink-erase cleanup k (y ∷ ys) x h e)

  -- If an item has the key and its cleanup returns, `list_delete_node` returns 0, takes out the first
  -- item with the key and takes 1 from the counter.
  pub delete-erase :
      (cleanup : A → Run (Unit {0})) (k : K) (l : ItemList A) (x : A)
      → list_get_node compare_func l k ≡ some x
      → cleanup x ≡ ok tt
      → list_delete_node compare_func cleanup l k
        ≡ ok (0, record { items = erase c k l.items; n_items = l.n_items - 1 })
  unfolding list_delete_node list_get_node
  delete-erase cleanup k l x h e = delete_items cleanup k l l.items x h e

  -- What the operations keep.
  pub empty-IsMap : IsMap empty
  unfolding Distinct
  empty-IsMap = record { counted = refl; distinct = tt }

  pub append-IsMap :
      (l : ItemList A) (y : A)
      → list_get_node compare_func l (key y) ≡ none
      → IsMap l
      → IsMap (list_append_node l y)
  unfolding list_append_node list_get_node
  append-IsMap l y new v = record {
    counted = omega (arith, v.counted, length-append l.items (y ∷ []));
    distinct = Distinct-append l.items y new v.distinct;
  }

  pub set-IsMap :
      (l : ItemList A) (k : K) (y : A) → key y ≡ k → IsMap l → IsMap (set_node compare_func l k y)
  unfolding set_node
  set-IsMap l k y e v = record {
    counted = v.counted ∙ sym (length-set k y l.items);
    distinct = Distinct-set k y l.items e v.distinct;
  }

  pub erase-IsMap :
      (l : ItemList A) (k : K) (x : A)
      → list_get_node compare_func l k ≡ some x
      → IsMap l
      → IsMap (record { items = erase c k l.items; n_items = l.n_items - 1 })
  unfolding list_get_node
  erase-IsMap l k x h v = record {
    counted = omega (arith, v.counted, length-erase k l.items h);
    distinct = Distinct-erase k l.items v.distinct;
  }

  found_mid : (xs ys : List A) (y : A) → get_first compare_func (key y) (xs ++ y ∷ ys) ≢ none
  unfolding get_first
  found_mid [] ys y e = absurd (cc (rw (hit c y refl) at e))
  found_mid (x ∷ xs) ys y e = elim (Bool-cases (compare_func x (key y) == 0)) [
    | inl p ↦ absurd (cc (rw p at e))
    | inr p ↦ found_mid xs ys y (rw p at e)
  ]

  -- the key of an item does not stand before it
  pub Distinct-before :
      (xs ys : List A) (y : A)
      → Distinct c (xs ++ y ∷ ys)
      → get_first compare_func (key y) xs ≡ none
  unfolding get_first Distinct
  Distinct-before [] ys y d = refl
  Distinct-before (x ∷ xs) ys y d = elim (Bool-cases (compare_func x (key y) == 0)) [
    | inl p ↦ absurd (found_mid xs ys y (rw (key_of_hit c x (key y) p) at d.0))
    | inr p ↦ rw p (Distinct-before xs ys y d.1)
  ]
