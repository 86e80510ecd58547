-- ===== src/Lifecycle/Laws.antt =====
-- Initialising and freeing the state of src/daemon/state.c.
use nav.Base.{◌≡◌, refl, ◌<◌, some, List, [], ◌∷◌, All, All-mono, length, lt→ltb}
use nav.Run.{Run, ok}
use nav.ItemList.{cleanup_all, list_delete_all}
use nav.Tag.{Tag, cleanup_tag}
use nav.Shell.{cleanup_shell}
use nav.Shell.Stack.{cleanup_shell-ends}
use nav.World.{World}
use nav.Commands.Invariant.{IsShell, IsWellFormed}
use nav.Lifecycle.{freed, live, deinit_state, get_state, handler}

module _ {A : Type 0} (cleanup : A → Run (Unit {0})) where
  cleanup_all-All : (xs : List A) → All (λ x. cleanup x ≡ ok tt) xs → cleanup_all cleanup xs ≡ ok tt
  unfolding cleanup_all
  cleanup_all-All [] h = refl
  cleanup_all-All (x ∷ xs) h = rw h.0 (cleanup_all-All xs h.1)

every_tag : (ts : List Tag) → All (λ t. cleanup_tag t ≡ ok tt) ts
unfolding cleanup_tag
every_tag [] = tt
every_tag (t ∷ ts) = (refl, every_tag ts)

module _ (w : World) (v : IsWellFormed w) where
  -- In a well-formed state, `deinit_state` frees all shells with their stacks, all tags and the state; it
  -- returns, and no loop in it goes on for ever.
  pub deinit-freed : deinit_state (live w.state) ≡ ok freed
  unfolding deinit_state list_delete_all
  deinit-freed =
      let shells =
        All-mono (IsShell w.cache_dir) (λ s. cleanup_shell s ≡ ok tt) w.shells.items
          (λ s m. cleanup_shell-ends s m.counted) v.members in
      rw (
        cleanup_all-All cleanup_shell w.shells.items shells,
        cleanup_all-All cleanup_tag w.tags.items (every_tag w.tags.items),
      )

  -- The signal handler unlinks the daemon's socket and frees the state, if the state is well-formed and
  -- the path of the socket is not empty.
  pub handler_unlinks :
      0 < length w.nav_socket_path → handler (live w.state) ≡ ok (some w.nav_socket_path, freed)
  unfolding handler get_state
  handler_unlinks h = rw (deinit-freed, lt→ltb 0 (length w.nav_socket_path) h)
