-- ===== src/Nodes/Chain.antt =====
-- A chain of nodes on the heap and the items in it; what a store or a free elsewhere leaves alone.
use nav.Base.{ℕ, ◌≡◌, sym, ◌∙◌, ◌≢◌, Option, none, some, List, [], ◌∷◌, All, All-mono, arith}
use nav.Nodes.{Node, Heap, store, free}

-- the addresses of the nodes, with their data
abbrev pub Cells : Type 0 → Type 0
Cells A = List (ℕ × A)

module _ {A : Type 0} where
  abbrev pub contents : Cells A → List A
  contents [] = []
  contents ((q, x) ∷ cs) = x ∷ contents cs

  -- the chain from `p` has these nodes
  abbrev pub Chain : Heap A → Option ℕ → Cells A → Type 0
  Chain h p [] = p ≡ none
  Chain h p ((q, x) ∷ cs) =
      (p ≡ some q)
      × (t : Option ℕ) × (h q ≡ some (record { node_data = x; next = t }))
      × Chain h t cs

  abbrev pub Avoids : ℕ → Cells A → Type 0
  Avoids a = All (λ c. c.0 ≢ a)

  -- no node stands twice in the chain
  abbrev pub NoDup : Cells A → Type 0
  NoDup [] = Unit
  NoDup ((q, x) ∷ cs) = Avoids q cs × NoDup cs

  -- `h'` is `h` but for these nodes
  abbrev pub Frame : Heap A → Heap A → Cells A → Type 0
  Frame h h' cs = (a : ℕ) → Avoids a cs → h' a ≡ h a

  pub store_same : (h : Heap A) (p : ℕ) (n : Node A) → store h p n p ≡ some n
  store_same h p n = ground arith

  pub store_other : (h : Heap A) (p a : ℕ) (n : Node A) → p ≢ a → store h p n a ≡ h a
  store_other h p a n ne = ground arith

  pub free_other : (h : Heap A) (p a : ℕ) → p ≢ a → free h p a ≡ h a
  free_other h p a ne = ground arith

  -- a chain is kept where the heap is the same at its nodes
  pub Chain-frame :
      (h h' : Heap A) (p : Option ℕ) (cs : Cells A)
      → All (λ c. h' c.0 ≡ h c.0) cs
      → Chain h p cs
      → Chain h' p cs
  Chain-frame h h' p [] same c = c
  Chain-frame h h' p ((q, x) ∷ cs) same (e, t, at_q, c) =
      (e, t, same.0 ∙ at_q, Chain-frame h h' t cs same.1 c)

  pub Chain-store :
      (h : Heap A) (q : ℕ) (n : Node A) (p : Option ℕ) (cs : Cells A)
      → Avoids q cs
      → Chain h p cs
      → Chain (store h q n) p cs
  Chain-store h q n p cs av c =
      Chain-frame h (store h q n) p cs
        (All-mono (λ d. d.0 ≢ q) (λ d. store h q n d.0 ≡ h d.0) cs
          (λ d ne. store_other h q d.0 n (λ e. ne (sym e))) av)
        c

  pub Chain-free :
      (h : Heap A) (q : ℕ) (p : Option ℕ) (cs : Cells A)
      → Avoids q cs
      → Chain h p cs
      → Chain (free h q) p cs
  Chain-free h q p cs av c =
      Chain-frame h (free h q) p cs
        (All-mono (λ d. d.0 ≢ q) (λ d. free h q d.0 ≡ h d.0) cs
          (λ d ne. free_other h q d.0 (λ e. ne (sym e))) av)
        c
