-- ===== src/Nodes/Refines.antt =====
-- `list_append_node` and `list_prepend_node` of src/daemon/list.c on the heap, against those of ItemList.
use nav.Base.{
  ℕ, zero, suc, ◌+◌, ◌≡◌, refl, sym, ap, ◌∙◌, ◌≢◌, ◌≤◌, ◌<◌, Option, none, some, [], ◌∷◌, ◌++◌,
  length, arith,
}
use nav.Run.Ensures.{Returns, Returns-mono, Returns-bind}
use nav.ItemList
use nav.ItemList.{ItemList}
use nav.Nodes.{
  Node, Heap, Header, load_node, set_next, append_at, append_loop, append_to, list_append_node,
  prepend_to, list_prepend_node,
}
use nav.Nodes.Chain.{
  Cells, contents, Chain, Avoids, NoDup, Frame, store_same, store_other, Chain-store,
}

module _ {A : Type 0} where
  pub record IsList (h : Heap A) (l : Header) (cs : Cells A) : Type 0 where
    pub chain : Chain h l.head cs
    pub no_dup : NoDup cs

  -- the list that the clients see
  abbrev pub view : Header → Cells A → ItemList A
  view l cs = record { items = contents cs; n_items = l.n_items }

  contents-append :
      (cs : Cells A) (n : ℕ) (x : A) → contents (cs ++ (n, x) ∷ []) ≡ contents cs ++ x ∷ []
  contents-append [] n x = refl
  contents-append ((q, y) ∷ cs) n x = ap (λ l. y ∷ l) (contents-append cs n x)

  Avoids-append :
      (a : ℕ) (cs : Cells A) (n : ℕ) (x : A) → n ≢ a → Avoids a cs → Avoids a (cs ++ (n, x) ∷ [])
  Avoids-append a [] n x ne av = (ne, tt)
  Avoids-append a (c ∷ cs) n x ne av = (av.0, Avoids-append a cs n x ne av.1)

  NoDup-append : (cs : Cells A) (n : ℕ) (x : A) → Avoids n cs → NoDup cs → NoDup (cs ++ (n, x) ∷ [])
  NoDup-append [] n x av d = (tt, tt)
  NoDup-append ((q, y) ∷ cs) n x av d =
      (Avoids-append q cs n x (λ e. av.0 (sym e)) d.0, NoDup-append cs n x av.1 d.1)

  -- what the loop of `list_append_node` leaves
  abbrev Appended : Heap A → Option ℕ → Cells A → ℕ → A → Heap A → Type 0
  Appended h p cs n x h' = Chain h' p (cs ++ (n, x) ∷ []) × Frame h h' cs

  append_loop-Appended :
      (f : ℕ) (h : Heap A) (q : ℕ) (y : A) (cs : Cells A) (n : ℕ) (x : A)
      → length cs < f
      → Chain h (some q) ((q, y) ∷ cs)
      → NoDup ((q, y) ∷ cs)
      → Avoids n ((q, y) ∷ cs)
      → h n ≡ some (record { node_data = x; next = none })
      → Returns (Appended h (some q) ((q, y) ∷ cs) n x) (append_loop f h (some q) n)
  unfolding append_loop append_at set_next load_node
  append_loop-Appended zero h q y cs n x en c d av at_n = absurd (omega arith)
  append_loop-Appended (suc f) h q y [] n x en (e, t, at_q, last) d av at_n =
      let new : Node A = record { node_data = y; next = some n } in
      rw (at_q, last, at_q)
        (
          (refl, some n, store_same h q new, (refl, none, store_other h q n new av.0 ∙ at_n, refl)),
          λ a ne. store_other h q a new ne.0,
        )
  append_loop-Appended (suc f) h q y ((r, z) ∷ cs) n x en (e, t, at_q, (e', t', at_r, rest)) d av
        at_n =
      rw (at_q, e')
        (Returns-mono (Appended h (some r) ((r, z) ∷ cs) n x)
          (Appended h (some q) ((q, y) ∷ (r, z) ∷ cs) n x) (append_loop f h (some r) n)
          (λ h' (c, same). ((refl, some r, same q d.0 ∙ at_q ∙ rw e', c), λ a ne. same a ne.1))
          (append_loop-Appended f h r z cs n x (omega arith) (refl, t', at_r, rest) d.1 av.1 at_n))

  -- `list_append_node` of a node that is allocated, not in the list and without a next one, with enough
  -- fuel, returns: the nodes are those before and the new one at the end, the clients see the item
  -- appended, and the heap is the same at all other addresses.
  pub append-Refines :
      (f : ℕ) (h : Heap A) (l : Header) (cs : Cells A) (n : ℕ) (x : A)
      → length cs ≤ f
      → IsList h l cs
      → Avoids n cs
      → h n ≡ some (record { node_data = x; next = none })
      → Returns
          (λ r.
            IsList r.0 r.1 (cs ++ (n, x) ∷ [])
            × (view r.1 (cs ++ (n, x) ∷ []) ≡ ItemList.list_append_node (view l cs) x)
            × Frame h r.0 cs)
          (list_append_node f h l n)
  unfolding list_append_node append_to ItemList.list_append_node
  append-Refines f h l [] n x en v av at_n =
      rw v.chain
        (record { chain = (refl, none, at_n, refl); no_dup = (tt, tt) }, refl, λ a ne. refl)
  append-Refines f h l ((q, y) ∷ cs) n x en v av at_n =
      let (e, t, at_q, rest) = v.chain in
      rw e (
        Returns-bind (Appended h (some q) ((q, y) ∷ cs) n x) _ (append_loop f h (some q) n) _
          (append_loop-Appended f h q y cs n x (omega arith) (refl, t, at_q, rest) v.no_dup av at_n)
          λ h' (c, same). (
            record { chain = c; no_dup = NoDup-append ((q, y) ∷ cs) n x av v.no_dup },
            ap (λ xs. record { items = xs; n_items = l.n_items + 1 })
                (contents-append ((q, y) ∷ cs) n x),
            same,
          ))

  -- `list_prepend_node` of a node that is allocated, not in the list and without a next one returns: the
  -- nodes are the new one and those before, the clients see the item prepended, and the heap is the same
  -- at all addresses but that of the new node.
  pub prepend-Refines :
      (h : Heap A) (l : Header) (cs : Cells A) (n : ℕ) (x : A)
      → IsList h l cs
      → Avoids n cs
      → h n ≡ some (record { node_data = x; next = none })
      → Returns
          (λ r.
            IsList r.0 r.1 ((n, x) ∷ cs)
            × (view r.1 ((n, x) ∷ cs) ≡ ItemList.list_prepend_node (view l cs) x)
            × Frame h r.0 ((n, x) ∷ []))
          (list_prepend_node h l n)
  unfolding list_prepend_node prepend_to set_next load_node ItemList.list_prepend_node
  prepend-Refines h l [] n x v av at_n =
      rw v.chain
        (record { chain = (refl, none, at_n, refl); no_dup = (tt, tt) }, refl, λ a ne. refl)
  prepend-Refines h l ((q, y) ∷ cs) n x v av at_n =
      let (e, t, at_q, rest) = v.chain in
      let new : Node A = record { node_data = x; next = some q } in
      rw (e, at_n)
        (
          record {
            chain = (
              refl,
              some q,
              store_same h n new,
              Chain-store h n new (some q) ((q, y) ∷ cs) av (refl, t, at_q, rest),
            );
            no_dup = (av, v.no_dup);
          },
          refl,
          λ a ne. store_other h n a new ne.0,
        )
