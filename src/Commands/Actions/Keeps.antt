-- ===== src/Commands/Actions/Keeps.antt =====
-- The invariant under the stack commands of src/daemon/commands.c.
use nav.Base.{
  ℕ, ◌+◌, ◌-◌, ◌≡◌, refl, false, ◌&&◌, none, some, List, [], ◌∷◌, length, All, Bytes, ℤ, Bool-cases,
  inl, inr, arith,
}
use nav.Run.{ok}
use nav.Run.Ensures.{Ensures, Ensures-bind, Returns}
use nav.CString.{sprintf}
use nav.CString.Laws.{sprintf-ends, strcmp_iff}
use nav.Utils.{dup_word, valid_path}
use nav.Utils.Words.{IsWord, dup_word-IsWord}
use nav.ItemList.{ItemList, list_prepend_node, list_delete_all, cleanup_all, set_node}
use nav.ItemList.Maps.{set-IsMap}
use nav.ItemList.Members.{All-set}
use nav.Shell.{Shell, Action, cleanup_action}
use nav.Shell.Stack.{shell_key, delete-head}
use nav.World.{World, Os, sendto}
use nav.Commands.Replies.{Args, put_shell}
use nav.Commands.Invariant.{
  NoRepeat, IsShell, IsWellFormed, sendto-IsWellFormed, with_shell-cases, found-IsShell,
}
use nav.Commands.Actions.{
  is_head, put_actions, push_action, push_arg, cmd_push, pop_action, cmd_pop, actions_loop,
  cmd_actions, cmd_reset,
}

-- the part of `IsShell` that is about the stack
pub record IsStack (l : ItemList Action) : Type 0 where
  pub counted : l.n_items ≡ length l.items
  pub no_repeat : NoRepeat l.items
  pub words : All (λ a. IsWord a.path) l.items

pub IsStack-of : {dir : Bytes} {s : Shell} → IsShell dir s → IsStack s.actions
IsStack-of is = record { counted = is.counted; no_repeat = is.no_repeat; words = is.words }

put_actions-IsWellFormed :
    (w : World) (s : Shell) (as' : ItemList Action)
    → IsShell w.cache_dir s
    → IsStack as'
    → IsWellFormed w
    → IsWellFormed (put_actions w s as')
unfolding put_shell
put_actions-IsWellFormed w s as' is st v =
    let s' : Shell = record s { actions = as' } in
    record {
      shells = set-IsMap shell_key w.shells s.pid s' refl v.shells;
      members =
          unfold set_node in
          All-set shell_key (IsShell w.cache_dir) s.pid s' w.shells.items
            (record {
              addressed = is.addressed;
              counted = st.counted;
              no_repeat = st.no_repeat;
              words = st.words;
            })
            v.members;
      tags = v.tags;
      entries = v.entries;
    }

NoRepeat-push :
    (xs : List Action) (path : Bytes)
    → is_head xs path ≡ false
    → NoRepeat xs
    → NoRepeat (record { path = path } ∷ xs)
unfolding is_head
NoRepeat-push [] path h n = tt
NoRepeat-push (a ∷ xs) path h n = (λ e. ground (arith, strcmp_iff a.path path), n)

NoRepeat-tail : (a : Action) (xs : List Action) → NoRepeat (a ∷ xs) → NoRepeat xs
NoRepeat-tail a [] n = tt
NoRepeat-tail a (b ∷ xs) n = n.1

prepend-IsStack :
    (l : ItemList Action) (path : Bytes)
    → is_head l.items path ≡ false
    → IsWord path
    → IsStack l
    → IsStack (list_prepend_node l (record { path = path }))
unfolding list_prepend_node
prepend-IsStack l path h word st = record {
  counted = omega (arith, st.counted);
  no_repeat = NoRepeat-push l.items path h st.no_repeat;
  words = (word, st.words);
}

module _ (os : Os) (w : World) (v : IsWellFormed w) where
  push_action-IsWellFormed :
      (s : Shell) (path : Bytes)
      → IsShell w.cache_dir s
      → IsWord path
      → IsWellFormed (push_action os w s path)
  unfolding push_action
  push_action-IsWellFormed s path is word = elim (Bool-cases (valid_path (os.fstatat path))) [
    | inr e ↦ rw e (sendto-IsWellFormed _ _ v)
    | inl e ↦ rw e (elim (Bool-cases (is_head s.actions.items path)) [
      | inl h ↦ rw h (sendto-IsWellFormed _ _ v)
      | inr h ↦ rw h (elim (Bool-cases (os.node_alloc && os.data_alloc)) [
        | inr m ↦ rw m (sendto-IsWellFormed _ _ v)
        | inl m ↦ rw m (
            sendto-IsWellFormed _ _ (
              put_actions-IsWellFormed w s _ is
                (prepend-IsStack s.actions path h word (IsStack-of is)) v))
      ])
    ])
  ]

  pub push-IsWellFormed : (pid : ℤ) (args : Args) → Ensures IsWellFormed (cmd_push os w pid args)
  unfolding cmd_push
  push-IsWellFormed pid args =
      with_shell-cases (Ensures IsWellFormed) w pid _ v
        λ s e. on_args s (found-IsShell w pid e v) args
    where
      on_args :
          (s : Shell)
          → IsShell w.cache_dir s
          → (o : Args) → Ensures IsWellFormed (push_arg os w s o)
      on_args s is none = v
      on_args s is (some p) =
          Ensures-bind IsWord IsWellFormed (dup_word p) _ (dup_word-IsWord p)
            λ path word. push_action-IsWellFormed s path is word

  pop_action-IsWellFormed :
      (s : Shell) (xs : List Action) (n : ℕ)
      → s.actions ≡ record { items = xs; n_items = n }
      → IsShell w.cache_dir s
      → IsStack (record { items = xs; n_items = n })
      → Ensures IsWellFormed (pop_action w s xs)
  unfolding pop_action
  pop_action-IsWellFormed s [] n e is st = sendto-IsWellFormed _ _ v
  pop_action-IsWellFormed s (a ∷ xs) n e is st =
      Ensures-bind (λ _. Unit) IsWellFormed (sprintf _ _ _) _ (sprintf-ends _ _ _)
        λ buf _.
          rw (e, delete-head a xs n)
            (put_actions-IsWellFormed (sendto w s.sun_path buf) s _ (unfold sendto in is)
              (record {
                counted = omega (arith, st.counted);
                no_repeat = NoRepeat-tail a xs st.no_repeat;
                words = st.words.1;
              })
              (sendto-IsWellFormed _ _ v))

  pub pop-IsWellFormed : (pid : ℤ) (args : Args) → Ensures IsWellFormed (cmd_pop os w pid args)
  unfolding cmd_pop
  pop-IsWellFormed pid args = with_shell-cases (Ensures IsWellFormed) w pid _ v λ s e.
      pop_action-IsWellFormed s s.actions.items s.actions.n_items refl (found-IsShell w pid e v)
        (IsStack-of (found-IsShell w pid e v))

pub actions_loop-ends :
    (xs : List Action) (i : ℕ) (out : Bytes) → Ensures (λ _. Unit) (actions_loop xs i out)
unfolding actions_loop
actions_loop-ends [] i out = tt
actions_loop-ends (a ∷ xs) i out =
    Ensures-bind (λ _. Unit) _ (sprintf _ _ _) _ (sprintf-ends _ _ _)
      λ out' _. actions_loop-ends xs (i + 1) out'

cleanup_all-ok : (xs : List Action) → cleanup_all cleanup_action xs ≡ ok tt
unfolding cleanup_all cleanup_action
cleanup_all-ok [] = refl
cleanup_all-ok (a ∷ xs) = cleanup_all-ok xs

-- Clearing a stack empties it and takes its length from the counter.
pub delete_all-empty :
    (l : ItemList Action)
    → list_delete_all cleanup_action l
      ≡ ok (record { items = []; n_items = l.n_items - length l.items })
unfolding list_delete_all
delete_all-empty l = rw (cleanup_all-ok l.items)

module _ (os : Os) (w : World) (v : IsWellFormed w) (pid : ℤ) (args : Args) where
  pub actions-IsWellFormed : Ensures IsWellFormed (cmd_actions os w pid args)
  unfolding cmd_actions
  actions-IsWellFormed = with_shell-cases (Ensures IsWellFormed) w pid _ v λ s _.
      Ensures-bind (λ _. Unit) IsWellFormed (actions_loop s.actions.items 1 []) _
        (actions_loop-ends s.actions.items 1 []) λ buf _. sendto-IsWellFormed s.sun_path buf v

  pub reset-IsWellFormed : Returns IsWellFormed (cmd_reset os w pid args)
  unfolding cmd_reset
  reset-IsWellFormed = with_shell-cases (Returns IsWellFormed) w pid _ v λ s e.
      let is = found-IsShell w pid e v in
      rw (delete_all-empty s.actions) (
        sendto-IsWellFormed _ _ (
          put_actions-IsWellFormed w s _ is
            (record { counted = omega (arith, is.counted); no_repeat = tt; words = tt }) v))
