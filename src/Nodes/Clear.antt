-- ===== src/Nodes/Clear.antt =====
-- `list_delete_all` of src/daemon/list.c on the heap, against that of ItemList.
use nav.Base.{ℕ, zero, suc, ◌-◌, ◌≡◌, refl, ap, ◌∙◌, ◌<◌, none, some, [], ◌∷◌, length, All, arith}
use nav.Run.{Run, ok}
use nav.Run.Ensures.{Returns, Returns-mono}
use nav.ItemList
use nav.ItemList.{cleanup_all}
use nav.Nodes.{Heap, Header, free, load_node, delete_all_loop, list_delete_all}
use nav.Nodes.Chain.{Cells, contents, Chain, NoDup, Frame, free_other, Chain-free}
use nav.Nodes.Refines.{IsList, view}

module _ {A : Type 0} (cleanup_func : A → Run (Unit {0}))
    (ends : (x : A) → cleanup_func x ≡ ok tt) where
  -- what the loop leaves
  abbrev pub Cleared : Heap A → Header → Cells A → Heap A × Header → Type 0
  Cleared h l cs r =
      (r.1 ≡ record { head = none; n_items = l.n_items - length cs })
      × All (λ c. r.0 c.0 ≡ none) cs
      × Frame h r.0 cs

  freed_here : (h : Heap A) (q : ℕ) → free h q q ≡ none
  freed_here h q = ground arith

  delete_all_loop-Cleared :
      (f : ℕ) (h : Heap A) (l : Header) (cs : Cells A)
      → length cs < f
      → Chain h l.head cs
      → NoDup cs
      → Returns (Cleared h l cs) (delete_all_loop cleanup_func f h l l.head)
  unfolding delete_all_loop load_node
  delete_all_loop-Cleared zero h l cs en c d = absurd (omega arith)
  delete_all_loop-Cleared (suc f) h l [] en c d =
      rw c (ap (λ m. record { head = none; n_items = m }) (omega arith), tt, λ a ne. refl)
  delete_all_loop-Cleared (suc f) h l ((q, x) ∷ cs) en (e, t, at_q, c) d =
      rw (e, at_q, ends x)
        (let l' : Header = record { head = t; n_items = l.n_items - 1 } in
          Returns-mono (Cleared (free h q) l' cs)
            (Cleared h (record l { head = some q }) ((q, x) ∷ cs))
            (delete_all_loop cleanup_func f (free h q) l' t)
            (λ r (header, freed, same). (
              header ∙ ap (λ m. record { head = none; n_items = m }) (omega arith),
              (same q d.0 ∙ freed_here h q, freed),
              λ a ne. same a ne.1 ∙ free_other h q a ne.0,
            ))
            (delete_all_loop-Cleared f (free h q) l' cs (omega arith) (Chain-free h q t cs d.0 c)
              d.1))

  cleanup_all-ends : (cs : Cells A) → cleanup_all cleanup_func (contents cs) ≡ ok tt
  unfolding cleanup_all
  cleanup_all-ends [] = refl
  cleanup_all-ends ((q, x) ∷ cs) = rw (ends x) (cleanup_all-ends cs)

  length-contents : (cs : Cells A) → length (contents cs) ≡ length cs
  length-contents [] = refl
  length-contents ((q, x) ∷ cs) = ap suc (length-contents cs)

  -- `list_delete_all` with enough fuel returns, for a cleanup that does: the list is empty as the clients
  -- see it from ItemList, every node is freed, and the heap is the same outside the list.
  pub clear-Refines :
      (f : ℕ) (h : Heap A) (l : Header) (cs : Cells A)
      → length cs < f
      → IsList h l cs
      → Returns
          (λ r.
            IsList r.0 r.1 []
            × (ItemList.list_delete_all cleanup_func (view l cs) ≡ ok (view r.1 []))
            × All (λ c. r.0 c.0 ≡ none) cs
            × Frame h r.0 cs)
          (list_delete_all cleanup_func f h l)
  unfolding list_delete_all ItemList.list_delete_all
  clear-Refines f h l cs en v =
      Returns-mono (Cleared h l cs) _ (delete_all_loop cleanup_func f h l l.head)
        (λ r (header, freed, same). (
          record { chain = rw header refl; no_dup = tt },
          rw (cleanup_all-ends cs, length-contents cs, header) refl,
          freed,
          same,
        ))
        (delete_all_loop-Cleared f h l cs en v.chain v.no_dup)
