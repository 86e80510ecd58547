-- ===== src/Commands/Actions/PushPop.antt =====
-- `push` and `pop` of src/daemon/commands.c as a stack of paths.
use nav.Base.{
  ◌+◌, ◌-◌, ◌≡◌, refl, sym, ap, ◌∙◌, ◌≢◌, ◌≤◌, true, false, some, List, [], ◌∷◌, ◌++◌, append_assoc,
  length, length-append, Bytes, ℤ, arith,
}
use nav.Run.{ok, ◌>>=◌}
use nav.Run.Ensures.{Returns}
use nav.CString.Laws.{strcmp_iff}
use nav.CString.Bounds.{sprintf-fits}
use nav.Utils.{valid_path}
use nav.Utils.Words.{first_word, has_blank, dup_word-first_word}
use nav.ItemList.{ItemList, list_prepend_node, list_get_node, set_node, get_first}
use nav.ItemList.Lookup.{get-set_self, set-set, set_same}
use nav.Shell.{Shell, Action, compare_shell_pid}
use nav.Shell.Stack.{shell_key, delete-head}
use nav.World.{World, Os, sendto}
use nav.Commands.Replies.{Args, get_shell, put_shell, ok_nul_reply}
use nav.Commands.Invariant.{pid-get_shell}
use nav.Commands.Actions.{
  is_head, put_actions, push_arg, push_action, cmd_push, pop_action, cmd_pop,
}

-- the path is not that of the top action
abbrev pub IsNewTop : List Action → Bytes → Type 0
IsNewTop [] path = Unit
IsNewTop (a ∷ rest) path = a.path ≢ path

is_head-false : (xs : List Action) (path : Bytes) → IsNewTop xs path → is_head xs path ≡ false
unfolding is_head
is_head-false [] path h = refl
is_head-false (a ∷ xs) path h = ground (arith, strcmp_iff a.path path)

is_head-true :
    (xs rest : List Action) (a : Action) (path : Bytes)
    → xs ≡ a ∷ rest
    → a.path ≡ path
    → is_head xs path ≡ true
unfolding is_head
is_head-true xs rest a path top same = rw top (ground (arith, strcmp_iff a.path path))

module _ (w : World) (pid : ℤ) (s : Shell) (e : get_shell w pid ≡ some s) where
  found_by_own : get_first compare_shell_pid s.pid w.shells.items ≡ some s
  unfolding list_get_node
  found_by_own = rw (sym (pid-get_shell w pid e)) at e

  -- a shell that was written back is found
  pub get-put_actions :
      (as' : ItemList Action)
      → get_shell (put_actions w s as') pid ≡ some (record s { actions = as' })
  unfolding put_shell set_node list_get_node
  get-put_actions as' =
      rw (sym (pid-get_shell w pid e))
        (get-set_self shell_key s.pid (record s { actions = as' }) w.shells.items refl found_by_own)

  -- writing a shell back twice, the second time with its first stack, changes nothing
  put_actions-twice :
      (as' : ItemList Action)
      → (put_actions (put_actions w s as') (record s { actions = as' }) s.actions).state ≡ w.state
  unfolding put_shell set_node
  put_actions-twice as' =
      ap (λ xs. record w.state { shells = record w.shells { items = xs } })
        (set-set shell_key s.pid (record s { actions = as' }) s w.shells.items refl
          ∙ set_same shell_key s.pid s w.shells.items found_by_own)

  abbrev pub pushed : Bytes → ItemList Action
  pushed path = list_prepend_node s.actions (record { path = path })

  abbrev after_push : Bytes → World
  after_push path = sendto (put_actions w s (pushed path)) s.sun_path ok_nul_reply

  abbrev after_pop : Bytes → World
  after_pop path =
      put_actions (sendto (after_push path) s.sun_path (path ++ b'\n' ∷ []))
        (record s { actions = pushed path }) s.actions

  pop-after_push :
      (os : Os) (path : Bytes) (args : Args)
      → length path ≤ 98
      → cmd_pop os (after_push path) pid args ≡ ok (after_pop path)
  unfolding cmd_pop pop_action sendto list_prepend_node
  pop-after_push os path args short =
      let counted : s.actions.n_items + 1 - 1 ≡ s.actions.n_items = omega arith in
      rw (
        get-put_actions (pushed path),
        sprintf-fits 100 [] (path ++ b'\n' ∷ [])
            (omega (arith, short, length-append path (b'\n' ∷ []))),
        delete-head (record { path = path }) s.actions.items (s.actions.n_items + 1),
        counted,
      )

  module _ (os : Os) (m : Bytes) (b : has_blank m ≡ true)
      (valid : valid_path (os.fstatat (first_word m)) ≡ true) where
    -- `push` of a path that is there and is not the top one puts it on the stack and replies OK.
    pub push-pushed :
        IsNewTop s.actions.items (first_word m)
        → os.node_alloc ≡ true
        → os.data_alloc ≡ true
        → cmd_push os w pid (some m)
          ≡ ok (sendto (put_actions w s (pushed (first_word m))) s.sun_path ok_nul_reply)
    unfolding cmd_push push_arg push_action
    push-pushed new n d =
        rw (
          e,
          dup_word-first_word m b,
          valid,
          is_head-false s.actions.items (first_word m) new,
          n,
          d,
        )

    -- `push` by a registered shell of an existing path that its top action has already replies OK and
    -- changes nothing else, if a newline or space lies in the memory of the arguments.
    pub push_duplicate :
        (a : Action) (rest : List Action)
        → s.actions.items ≡ a ∷ rest
        → a.path ≡ first_word m
        → cmd_push os w pid (some m) ≡ ok (sendto w s.sun_path ok_nul_reply)
    unfolding cmd_push push_arg push_action
    push_duplicate a rest top same = rw (
      e,
      dup_word-first_word m b,
      valid,
      is_head-true s.actions.items rest a (first_word m) top same,
    )

    -- When a registered shell pushes an existing path of at most 98 bytes that is not its top one, with
    -- memory to be had and a newline or space in the memory of the arguments, and then pops, both
    -- commands return, the state is as before, and the replies are OK and the path with a newline.
    pub pop-push :
        (os' : Os) (args : Args)
        → IsNewTop s.actions.items (first_word m)
        → os.node_alloc ≡ true
        → os.data_alloc ≡ true
        → length (first_word m) ≤ 98
        → Returns
            (λ w'.
              (w'.state ≡ w.state)
              × (w'.sent
                  ≡ w.sent
                    ++ record { to = s.sun_path; payload = ok_nul_reply }
                      ∷ record { to = s.sun_path; payload = first_word m ++ b'\n' ∷ [] }
                      ∷ []))
            (do w₁ ← cmd_push os w pid (some m); cmd_pop os' w₁ pid args)
    unfolding put_shell sendto
    pop-push os' args new n d short =
        rw (push-pushed new n d, pop-after_push os' (first_word m) args short)
          (put_actions-twice (pushed (first_word m)), append_assoc w.sent _ _)
