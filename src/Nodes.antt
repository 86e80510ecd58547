-- ===== src/Nodes.antt =====
-- src/daemon/list.c on a heap of nodes: every load, store and free of the C code. A node is the address
-- of a malloc'd `struct node`; its data is a value, on which `compare_func` and `cleanup_func` work.
-- The loops run on fuel.
pub mod Chain
pub mod Refines
pub mod Delete
pub mod Lookup
pub mod Clear
use nav.Base.{ℕ, zero, suc, ◌+◌, ◌-◌, Option, none, some, ◌==◌, if◌then◌else◌}
use nav.Run.{Run, ok, fault, hang, ◌>>=◌, ◌>>◌}

-- `struct node`
pub record Node (A : Type 0) : Type 0 where
  pub node_data : A
  pub next : Option ℕ

-- what is allocated, and what each node holds
abbrev pub Heap : Type 0 → Type 0
Heap A = ℕ → Option (Node A)

-- `struct list`
pub record Header : Type 0 where
  pub head : Option ℕ
  pub n_items : ℕ

module _ {A : Type 0} where
  -- an access through a pointer to memory that is not allocated
  unfoldable pub load_node : Option (Node A) → Run (Node A)
  load_node none = fault
  load_node (some n) = ok n

  abbrev pub load : Heap A → ℕ → Run (Node A)
  load h p = load_node (h p)

  abbrev pub store : Heap A → ℕ → Node A → Heap A
  store h p n = λ q. if p == q then some n else h q

  abbrev pub free : Heap A → ℕ → Heap A
  free h p = λ q. if p == q then none else h q

  -- `malloc` says where the new node is, if anywhere; its data, which the C code leaves unset, is `x`
  unfoldable pub list_node_create : Option ℕ → A → Heap A → ℕ × Heap A
  list_node_create none x h = (1, h)
  list_node_create (some p) x h = (0, store h p (record { node_data = x; next = none }))

  -- `p->next = q`
  unfoldable pub set_next : Heap A → ℕ → Option ℕ → Run (Heap A)
  unfolding load_node
  set_next h p q = do n ← load h p; ok (store h p (record n { next = q }))

  -- the node `p` gets `n` if it has no next one; otherwise the loop goes on
  unfoldable pub append_at : Heap A → ℕ → ℕ → Option ℕ → Run (Heap A) → Run (Heap A)
  unfolding set_next
  append_at h p n none further = set_next h p (some n)
  append_at h p n (some q) further = further

  unfoldable pub append_loop : ℕ → Heap A → Option ℕ → ℕ → Run (Heap A)
  unfolding append_at
  append_loop zero h curr n = hang
  append_loop (suc f) h none n = ok h
  append_loop (suc f) h (some p) n = do
    node ← load h p
    append_at h p n node.next (append_loop f h node.next n)

  unfoldable pub append_to : ℕ → Heap A → Header → ℕ → Option ℕ → Run (Heap A × Header)
  unfolding append_loop
  append_to f h l n none = ok (h, record { head = some n; n_items = l.n_items + 1 })
  append_to f h l n (some p) = do
    h' ← append_loop f h (some p) n
    ok (h', record l { n_items = l.n_items + 1 })

  unfoldable pub list_append_node : ℕ → Heap A → Header → ℕ → Run (Heap A × Header)
  unfolding append_to
  list_append_node f h l n = append_to f h l n l.head

  unfoldable pub prepend_to : Heap A → Header → ℕ → Option ℕ → Run (Heap A × Header)
  unfolding set_next
  prepend_to h l n none = ok (h, record { head = some n; n_items = l.n_items + 1 })
  prepend_to h l n (some p) = do
    h' ← set_next h n (some p)
    ok (h', record { head = some n; n_items = l.n_items + 1 })

  unfoldable pub list_prepend_node : Heap A → Header → ℕ → Run (Heap A × Header)
  unfolding prepend_to
  list_prepend_node h l n = prepend_to h l n l.head

module _ {A K : Type 0} (compare_func : A → K → ℕ) where
  unfoldable pub get_loop : ℕ → Heap A → Option ℕ → K → Run (Option ℕ)
  unfolding load_node
  get_loop zero h curr key = hang
  get_loop (suc f) h none key = ok none
  get_loop (suc f) h (some p) key = do
    node ← load h p
    let further = get_loop f h node.next key in
        if compare_func node.node_data key == 0 then ok (some p) else further

  -- the first node is compared before the loop, and again in it
  unfoldable pub get_from : ℕ → Heap A → Option ℕ → K → Run (Option ℕ)
  unfolding get_loop
  get_from f h none key = ok none
  get_from f h (some p) key = do
    node ← load h p
    if compare_func node.node_data key == 0 then ok (some p) else get_loop f h (some p) key

  unfoldable pub list_get_node : ℕ → Heap A → Header → K → Run (Option ℕ)
  unfolding get_from
  list_get_node f h l key = get_from f h l.head key

module _ {A K : Type 0} (compare_func : A → K → ℕ) (cleanup_func : A → Run (Unit {0})) where
  -- `if (prev) prev->next = next`
  unfoldable pub relink : Heap A → Option ℕ → Option ℕ → Run (Heap A)
  unfolding set_next
  relink h none q = ok h
  relink h (some p) q = set_next h p q

  -- what the loop does at a match: the cleanup, and the node is freed
  unfoldable pub unlink : Heap A → Header → Option ℕ → ℕ → Node A → Run (Heap A × Header)
  unfolding relink
  unlink h l prev p node = do
    h' ← relink h prev node.next
    cleanup_func node.node_data
    ok (free h' p, record l { n_items = l.n_items - 1 })

  unfoldable pub delete_loop : ℕ → Heap A → Header → Option ℕ → Option ℕ → K → Run (Heap A × Header)
  unfolding unlink load_node
  delete_loop zero h l prev curr key = hang
  delete_loop (suc f) h l prev none key = ok (h, l)
  delete_loop (suc f) h l prev (some p) key = do
    node ← load h p
    let further = delete_loop f h l (some p) node.next key in
        if compare_func node.node_data key == 0 then unlink h l prev p node else further

  -- the first node
  unfoldable pub delete_head : Heap A → Header → ℕ → Node A → Run (ℕ × Heap A × Header)
  delete_head h l p node = do
    cleanup_func node.node_data
    ok (0, free h p, record { head = node.next; n_items = l.n_items - 1 })

  unfoldable pub delete_from : ℕ → Heap A → Header → Option ℕ → K → Run (ℕ × Heap A × Header)
  unfolding delete_head delete_loop
  delete_from f h l none key = ok (1, h, l)
  delete_from f h l (some p) key = do
    node ← load h p
    if compare_func node.node_data key == 0
        then delete_head h l p node
        else (do r ← delete_loop f h l none (some p) key; ok (0, r.0, r.1))

  unfoldable pub list_delete_node : ℕ → Heap A → Header → K → Run (ℕ × Heap A × Header)
  unfolding delete_from
  list_delete_node f h l key = delete_from f h l l.head key

module _ {A : Type 0} (cleanup_func : A → Run (Unit {0})) where
  -- frees the nodes from `curr` on
  unfoldable pub delete_all_loop : ℕ → Heap A → Header → Option ℕ → Run (Heap A × Header)
  unfolding load_node
  delete_all_loop zero h l curr = hang
  delete_all_loop (suc f) h l none = ok (h, l)
  delete_all_loop (suc f) h l (some p) = do
    node ← load h p
    cleanup_func node.node_data
    delete_all_loop f (free h p) (record { head = node.next; n_items = l.n_items - 1 }) node.next

  unfoldable pub list_delete_all : ℕ → Heap A → Header → Run (Heap A × Header)
  unfolding delete_all_loop
  list_delete_all f h l = delete_all_loop f h l l.head
