-- ===== src/Nodes/Lookup.antt =====
-- `list_get_node` of src/daemon/list.c on the heap, against that of ItemList.
use mathlib.Core.Option
use nav.Base.{
  ℕ, zero, suc, ◌≡◌, refl, ◌<◌, Option, none, some, [], ◌∷◌, length, arith, ◌==◌, if◌then◌else◌,
  Bool-cases, inl, inr,
}
use nav.Run.{ok}
use nav.ItemList
use nav.Nodes.{Heap, Header, load_node, get_loop, get_from, list_get_node}
use nav.Nodes.Chain.{Cells, Chain}
use nav.Nodes.Refines.{IsList, view}

module _ {A K : Type 0} (compare_func : A → K → ℕ) where
  -- the first node that matches
  unfoldable pub find_cell : K → Cells A → Option (ℕ × A)
  find_cell k [] = none
  find_cell k (c ∷ cs) = if compare_func c.1 k == 0 then some c else find_cell k cs

  get_loop-find_cell :
      (f : ℕ) (h : Heap A) (p : Option ℕ) (k : K) (cs : Cells A)
      → length cs < f
      → Chain h p cs
      → get_loop compare_func f h p k ≡ ok (Option.map (λ c. c.0) (find_cell k cs))
  unfolding get_loop load_node find_cell
  get_loop-find_cell zero h p k cs en c = absurd (omega arith)
  get_loop-find_cell (suc f) h p k [] en c = rw c
  get_loop-find_cell (suc f) h p k ((q, x) ∷ cs) en (e, t, at_q, c) =
      elim (Bool-cases (compare_func x k == 0)) [
        | inl hit ↦ rw (e, at_q, hit)
        | inr miss ↦ rw (e, at_q, miss) (get_loop-find_cell f h t k cs (omega arith) c)
      ]

  find-view :
      (k : K) (l : Header) (cs : Cells A)
      → Option.map (λ c. c.1) (find_cell k cs) ≡ ItemList.list_get_node compare_func (view l cs) k
  unfolding find_cell ItemList.list_get_node
  find-view k l [] = refl
  find-view k l ((q, x) ∷ cs) = elim (Bool-cases (compare_func x k == 0)) [
    | inl hit ↦ rw hit
    | inr miss ↦ rw miss (find-view k l cs)
  ]

  -- `list_get_node` with enough fuel returns the address of the first node that matches, or no address
  -- if there is none, and the data of that node is what the lookup of ItemList finds.
  pub get-Refines :
      (f : ℕ) (h : Heap A) (l : Header) (k : K) (cs : Cells A)
      → length cs < f
      → IsList h l cs
      → (list_get_node compare_func f h l k ≡ ok (Option.map (λ c. c.0) (find_cell k cs)))
        × (Option.map (λ c. c.1) (find_cell k cs)
            ≡ ItemList.list_get_node compare_func (view l cs) k)
  unfolding list_get_node get_from
  get-Refines f h l k [] en v = (rw v.chain (unfold find_cell in refl), find-view k l [])
  get-Refines f h l k ((q, x) ∷ cs) en v =
      let (e, t, at_q, c) = v.chain in
      (
        rw (e, at_q, get_loop-find_cell f h (some q) k ((q, x) ∷ cs) en (refl, t, at_q, c))
            (elim (Bool-cases (compare_func x k == 0)) [
              | inl hit ↦ unfold find_cell load_node in rw hit
              | inr miss ↦ unfold find_cell load_node in rw miss
            ]),
        find-view k l ((q, x) ∷ cs),
      )
