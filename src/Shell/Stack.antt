-- ===== src/Shell/Stack.antt =====
-- Shells are looked up by process id, actions by path; the loop that cleans up a shell.
use nav.Base.{
  ℕ, zero, suc, ◌-◌, ◌≡◌, refl, ap, ◌∙◌, ◌≤◌, ◌↔◌, some, true, ltb, List, [], ◌∷◌, length, Bytes, ℤ,
  int_eq_iff, arith,
}
use nav.Run.{ok}
use nav.CString.Laws.{strcmp_iff}
use nav.ItemList.{get_first, list_get_node, list_delete_node}
use nav.ItemList.Lookup.{Key, erase, hit}
use nav.ItemList.Maps.{delete-erase}
use nav.Shell.{
  Action, Shell, compare_shell_pid, compare_action_path, cleanup_action, cleanup_shell,
  cleanup_loop, head_action,
}

pub compare_shell_iff : (s : Shell) (k : ℤ) → (compare_shell_pid s k ≡ 0) ↔ (s.pid ≡ k)
unfolding compare_shell_pid
compare_shell_iff s k = ground (arith, int_eq_iff s.pid k)

abbrev pub shell_key : Key Shell ℤ
shell_key = record {
  key = λ s. s.pid;
  compare_func = compare_shell_pid;
  compare_iff = compare_shell_iff;
}

pub compare_action_iff : (a : Action) (k : Bytes) → (compare_action_path a k ≡ 0) ↔ (a.path ≡ k)
unfolding compare_action_path
compare_action_iff a k = ground (arith, strcmp_iff a.path k)

abbrev pub action_key : Key Action Bytes
action_key = record {
  key = λ a. a.path;
  compare_func = compare_action_path;
  compare_iff = compare_action_iff;
}

get_first-head :
    (a : Action) (rest : List Action) → get_first compare_action_path a.path (a ∷ rest) ≡ some a
unfolding get_first
get_first-head a rest = rw (hit action_key a refl)

erase-head : (a : Action) (rest : List Action) → erase action_key a.path (a ∷ rest) ≡ rest
unfolding erase
erase-head a rest = rw (hit action_key a refl)

-- Deleting the head's path from a stack takes off the head, whatever lies below it.
pub delete-head :
    (a : Action) (rest : List Action) (n : ℕ)
    → list_delete_node compare_action_path cleanup_action
        (record { items = a ∷ rest; n_items = n })
        a.path
      ≡ ok (0, record { items = rest; n_items = n - 1 })
unfolding cleanup_action list_get_node
delete-head a rest n =
    delete-erase action_key cleanup_action a.path _ a (get_first-head a rest) refl
    ∙ ap (λ ys. ok (0, record { items = ys; n_items = n - 1 })) (erase-head a rest)

cleanup_loop-ends :
    (f n : ℕ) (xs : List Action)
    → n ≡ length xs
    → n ≤ f
    → cleanup_loop f (record { items = xs; n_items = n }) ≡ ok tt
unfolding cleanup_loop head_action
cleanup_loop-ends zero n xs e h = ground arith
cleanup_loop-ends (suc f) n [] e h = ground arith
cleanup_loop-ends (suc f) n (a ∷ rest) e h =
    let more : ltb 0 n ≡ true = ground arith in
    rw (more, delete-head a rest n) (cleanup_loop-ends f (n - 1) rest (omega arith) (omega arith))

-- The loop of `cleanup_shell` ends without a fault if the counter is the length of the stack.
pub cleanup_shell-ends :
    (s : Shell) → s.actions.n_items ≡ length s.actions.items → cleanup_shell s ≡ ok tt
unfolding cleanup_shell
cleanup_shell-ends s e =
    cleanup_loop-ends s.actions.n_items s.actions.n_items s.actions.items e (omega arith)
