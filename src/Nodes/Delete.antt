-- ===== src/Nodes/Delete.antt =====
-- `list_delete_node` of src/daemon/list.c on the heap, against that of ItemList.
use nav.Base.{
  ℕ, zero, suc, ◌-◌, ◌≡◌, refl, ◌∙◌, ◌<◌, Bool, true, false, Option, none, some, [], ◌∷◌, length,
  arith, ◌==◌, if◌then◌else◌, Bool-cases, inl, inr,
}
use nav.Run.{Run, ok}
use nav.Run.Ensures.{Returns, Returns-mono, Returns-bind}
use nav.ItemList
use nav.ItemList.{ItemList, unlink_first}
use nav.Nodes.{
  Node, Heap, Header, store, load_node, set_next, relink, unlink, delete_loop, delete_head,
  delete_from, list_delete_node,
}
use nav.Nodes.Chain.{
  Cells, contents, Chain, Avoids, NoDup, Frame, store_same, store_other, free_other, Chain-store,
  Chain-free,
}
use nav.Nodes.Refines.{IsList, view}

module _ {A K : Type 0} (compare_func : A → K → ℕ) where
  -- the cells without the first match
  unfoldable pub left : K → Cells A → Cells A
  left k [] = []
  left k ((q, x) ∷ cs) = if compare_func x k == 0 then cs else (q, x) ∷ left k cs

  unfoldable pub has : K → Cells A → Bool
  has k [] = false
  has k ((q, x) ∷ cs) = if compare_func x k == 0 then true else has k cs

  -- the two at a match, and at another node
  left-hit :
      (q : ℕ) (x : A) (k : K) (cs : Cells A)
      → (compare_func x k == 0) ≡ true
      → left k ((q, x) ∷ cs) ≡ cs
  unfolding left
  left-hit q x k cs e = rw e

  left-miss :
      (q : ℕ) (x : A) (k : K) (cs : Cells A)
      → (compare_func x k == 0) ≡ false
      → left k ((q, x) ∷ cs) ≡ (q, x) ∷ left k cs
  unfolding left
  left-miss q x k cs e = rw e

  has-hit :
      (q : ℕ) (x : A) (k : K) (cs : Cells A)
      → (compare_func x k == 0) ≡ true
      → has k ((q, x) ∷ cs) ≡ true
  unfolding has
  has-hit q x k cs e = rw e

  has-miss :
      (q : ℕ) (x : A) (k : K) (cs : Cells A)
      → (compare_func x k == 0) ≡ false
      → has k ((q, x) ∷ cs) ≡ has k cs
  unfolding has
  has-miss q x k cs e = rw e

  Avoids-left : (a : ℕ) (k : K) (cs : Cells A) → Avoids a cs → Avoids a (left k cs)
  unfolding left
  Avoids-left a k [] av = tt
  Avoids-left a k ((q, x) ∷ cs) av = elim (Bool-cases (compare_func x k == 0)) [
    | inl e ↦ rw (e, left) av.1
    | inr e ↦ rw (e, left) (av.0, Avoids-left a k cs av.1)
  ]

  NoDup-left : (k : K) (cs : Cells A) → NoDup cs → NoDup (left k cs)
  unfolding left
  NoDup-left k [] d = tt
  NoDup-left k ((q, x) ∷ cs) d = elim (Bool-cases (compare_func x k == 0)) [
    | inl e ↦ rw e d.1
    | inr e ↦ rw e (Avoids-left q k cs d.0, NoDup-left k cs d.1)
  ]

  left_none : (k : K) (cs : Cells A) → has k cs ≡ false → left k cs ≡ cs
  unfolding left has
  left_none k [] h = refl
  left_none k ((q, x) ∷ cs) h = elim (Bool-cases (compare_func x k == 0)) [
    | inl e ↦ absurd (cc (rw e at h))
    | inr e ↦ rw (e, left_none k cs (rw e at h))
  ]

  -- the counter goes down if there is a match
  abbrev pub counted : Header → Bool → ℕ
  counted l b = if b then l.n_items - 1 else l.n_items

  module _ (cleanup_func : A → Run (Unit {0})) (ends : (x : A) → cleanup_func x ≡ ok tt) where
    unlink_first-left :
        (k : K) (cs : Cells A)
        → unlink_first compare_func cleanup_func k (contents cs)
          ≡ ok (if has k cs then some (contents (left k cs)) else none)
    unfolding unlink_first left has
    unlink_first-left k [] = refl
    unlink_first-left k ((q, x) ∷ cs) = elim (Bool-cases (compare_func x k == 0)) [
      | inl e ↦ rw (e, ends x)
      | inr e ↦
          rw (e, unlink_first-left k cs)
            (elim (Bool-cases (has k cs)) [ inl b ↦ rw b | inr b ↦ rw b ])
    ]

    -- what the loop behind the node `p` leaves
    abbrev Unlinked : Heap A → Header → ℕ → A → K → Cells A → Heap A × Header → Type 0
    Unlinked h l p y k cs r =
        Chain r.0 (some p) ((p, y) ∷ left k cs)
        × (r.1 ≡ record l { n_items = counted l (has k cs) })
        × Frame h r.0 ((p, y) ∷ cs)

    delete_loop-Unlinked :
        (f : ℕ) (h : Heap A) (l : Header) (p : ℕ) (y : A) (t : Option ℕ) (k : K) (cs : Cells A)
        → length cs < f
        → h p ≡ some (record { node_data = y; next = t })
        → Chain h t cs
        → NoDup ((p, y) ∷ cs)
        → Returns (Unlinked h l p y k cs) (delete_loop compare_func cleanup_func f h l (some p) t k)
    unfolding delete_loop unlink relink set_next load_node
    delete_loop-Unlinked zero h l p y t k cs en at_p c d = absurd (omega arith)
    delete_loop-Unlinked (suc f) h l p y t k [] en at_p c d =
        rw c (unfold left has in ((refl, t, at_p, c), refl, λ a ne. refl))
    delete_loop-Unlinked (suc f) h l p y t k ((q, x) ∷ cs) en at_p (e, t', at_q, c) d =
        elim (Bool-cases (compare_func x k == 0)) [
          | inl hit ↦
              rw (e, at_q, hit, at_p, ends x, left-hit q x k cs hit, has-hit q x k cs hit)
                (let new : Node A = record { node_data = y; next = t' } in
                  let linked = store h p new in
                  (
                    (
                      refl,
                      t',
                      free_other linked q p d.0.0 ∙ store_same h p new,
                      Chain-free linked q t' cs d.1.0 (Chain-store h p new t' cs d.0.1 c),
                    ),
                    refl,
                    λ a ne. free_other linked q a ne.1.0 ∙ store_other h p a new ne.0,
                  ))
          | inr miss ↦
              rw (e, at_q, miss)
                (Returns-mono (Unlinked h l q x k cs) (Unlinked h l p y k ((q, x) ∷ cs))
                  (delete_loop compare_func cleanup_func f h l (some q) t' k)
                  (λ r (kept, header, same).
                    rw (left-miss q x k cs miss, has-miss q x k cs miss)
                      ((refl, some q, same p d.0 ∙ at_p ∙ rw e, kept), header, λ a ne. same a ne.1))
                  (delete_loop-Unlinked f h l q x t' k cs (omega arith) at_q c d.1))
        ]

    items_later :
        (l : Header) (q : ℕ) (x : A) (k : K) (cs : Cells A)
        → (compare_func x k == 0) ≡ false
        → ItemList.list_delete_node compare_func cleanup_func (view l ((q, x) ∷ cs)) k
          ≡ ok (0, record { items = x ∷ contents (left k cs); n_items = counted l (has k cs) })
    unfolding ItemList.list_delete_node unlink_first
    items_later l q x k cs miss =
        rw (miss, unlink_first-left k cs)
          (elim (Bool-cases (has k cs)) [ inl b ↦ rw b | inr b ↦ rw (b, left_none k cs b) ])

    -- `list_delete_node` with enough fuel returns, for a cleanup that does: the nodes are those before
    -- without the first one that matches, the result and the list that the clients see are those of
    -- ItemList, and the heap is the same outside the list.
    pub delete-Refines :
        (f : ℕ) (h : Heap A) (l : Header) (k : K) (cs : Cells A)
        → length cs < f
        → IsList h l cs
        → Returns
            (λ r.
              IsList r.1 r.2 (left k cs)
              × (ItemList.list_delete_node compare_func cleanup_func (view l cs) k
                  ≡ ok (r.0, view r.2 (left k cs)))
              × Frame h r.1 cs)
            (list_delete_node compare_func cleanup_func f h l k)
    unfolding list_delete_node delete_from delete_head load_node ItemList.list_delete_node
    delete-Refines f h l k [] en v =
        rw v.chain (unfold left in (record { chain = refl; no_dup = tt }, refl, λ a ne. refl))
    delete-Refines zero h l k ((q, x) ∷ cs) en v = absurd (omega arith)
    delete-Refines (suc f) h l k ((q, x) ∷ cs) en v =
        let (e, t, at_q, c) = v.chain in
        elim (Bool-cases (compare_func x k == 0)) [
          | inl hit ↦
              rw (e, at_q, hit, ends x, left-hit q x k cs hit)
                (
                  record { chain = Chain-free h q t cs v.no_dup.0 c; no_dup = v.no_dup.1 },
                  refl,
                  λ a ne. free_other h q a ne.0,
                )
          | inr miss ↦
              rw (e, at_q, miss)
                (let l' = record l { head = some q } in
                  Returns-bind (Unlinked h l' q x k cs) _
                    (delete_loop compare_func cleanup_func f h l' (some q) t k) _
                    (delete_loop-Unlinked f h l' q x t k cs (omega arith) at_q c v.no_dup)
                    λ r (kept, header, same).
                      rw (left-miss q x k cs miss, header)
                        (
                          record {
                            chain = kept;
                            no_dup = (Avoids-left q k cs v.no_dup.0, NoDup-left k cs v.no_dup.1);
                          },
                          rw miss at (items_later l q x k cs miss),
                          same,
                        ))
        ]
