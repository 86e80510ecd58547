-- ===== src/Tests/Lists.antt =====
-- A list of two numbers on the heap, and a third node.
use nav.Base.{ℕ, ◌≡◌, refl, some, none, [], ◌∷◌, All, arith, ◌==◌, if◌then◌else◌}
use nav.Run.{Run, ok}
use nav.Run.Ensures.{Returns}
use nav.ItemList
use nav.Nodes.{
  Heap, Header, list_append_node, list_prepend_node, list_get_node, list_delete_node,
  list_delete_all,
}
use nav.Nodes.Chain.{Cells, Frame}
use nav.Nodes.Refines.{IsList, view, append-Refines, prepend-Refines}
use nav.Nodes.Lookup.{find_cell, get-Refines}
use nav.Nodes.Delete.{left, delete-Refines}
use nav.Nodes.Clear.{clear-Refines}

abbrev heap : Heap ℕ
heap a =
    if a == 1
    then some (record { node_data = 10; next = some 2 })
    else if a == 2
    then some (record { node_data = 20; next = none })
    else if a == 3
    then some (record { node_data = 30; next = none })
    else none

abbrev header : Header
header = record { head = some 1; n_items = 2 }

abbrev cells : Cells ℕ
cells = (1, 10) ∷ (2, 20) ∷ []

abbrev three : Cells ℕ
three = (1, 10) ∷ (2, 20) ∷ (3, 30) ∷ []

abbrev compare_number : ℕ → ℕ → ℕ
compare_number x k = if x == k then 0 else 1

abbrev no_cleanup : ℕ → Run (Unit {0})
no_cleanup x = ok tt

is_list : IsList heap header cells
is_list = record {
  chain = (refl, some 2, refl, (refl, none, refl, refl));
  no_dup = ((omega arith, tt), (tt, tt));
}

append_example :
    Returns
      (λ r.
        IsList r.0 r.1 three
        × (view r.1 three ≡ ItemList.list_append_node (view header cells) 30)
        × Frame heap r.0 cells)
      (list_append_node 2 heap header 3)
append_example =
    append-Refines 2 heap header cells 3 30 (omega arith) is_list (omega arith, (omega arith, tt))
      refl

prepend_example :
    Returns
      (λ r.
        IsList r.0 r.1 ((3, 30) ∷ cells)
        × (view r.1 ((3, 30) ∷ cells) ≡ ItemList.list_prepend_node (view header cells) 30)
        × Frame heap r.0 ((3, 30) ∷ []))
      (list_prepend_node heap header 3)
prepend_example =
    prepend-Refines heap header cells 3 30 is_list (omega arith, (omega arith, tt)) refl

get_example :
    (list_get_node compare_number 3 heap header 20 ≡ ok (some 2))
    × (some 20 ≡ ItemList.list_get_node compare_number (view header cells) 20)
unfolding find_cell
get_example = get-Refines compare_number 3 heap header 20 cells (omega arith) is_list

delete_node_example :
    Returns
      (λ r.
        IsList r.1 r.2 ((1, 10) ∷ [])
        × (ItemList.list_delete_node compare_number no_cleanup (view header cells) 20
            ≡ ok (r.0, view r.2 ((1, 10) ∷ [])))
        × Frame heap r.1 cells)
      (list_delete_node compare_number no_cleanup 3 heap header 20)
unfolding left
delete_node_example =
    delete-Refines compare_number no_cleanup (λ x. refl) 3 heap header 20 cells (omega arith)
      is_list

clear_example :
    Returns
      (λ r.
        IsList r.0 r.1 []
        × (ItemList.list_delete_all no_cleanup (view header cells) ≡ ok (view r.1 []))
        × All (λ c. r.0 c.0 ≡ none) cells
        × Frame heap r.0 cells)
      (list_delete_all no_cleanup 3 heap header)
clear_example = clear-Refines no_cleanup (λ x. refl) 3 heap header cells (omega arith) is_list
