-- ===== src/Server/View.antt =====
-- The daemon's world seen as a `Server`.
use mathlib.Core.Option
use mathlib.Core.List.{map}
use nav.Base.{
  ◌≡◌, refl, ◌≢◌, ap, Option, some, List, Bytes, ℤ, int_eq, int_eq_iff, int_eq_refl, if◌then◌else◌,
  Bool-cases, inl, inr,
}
use nav.ItemList.{ItemList, list_get_node}
use nav.Shell.{Shell, Action, compare_shell_pid}
use nav.World.{World}
use nav.Commands.Replies.{get_shell, put_shell}
use nav.Commands.Actions.{put_actions}
use nav.Commands.Actions.PushPop.{get-put_actions}
use nav.Commands.Isolation.Answer.{get-put_actions_ne}
use nav.Commands.Tags.Map.{path_in}
use nav.Commands.Tags.Names.{names}
use nav.Server.{Server, set_stack}

abbrev pub stack_of : Shell → List Bytes
stack_of s = map (λ a. a.path) s.actions.items

abbrev pub view : World → Server
view w = record {
  names = names w.tags.items;
  paths = path_in w.tags;
  stacks = λ pid. Option.map stack_of (get_shell w pid);
}

pub Server-ext :
    (a b : Server)
    → a.names ≡ b.names
    → ((k : Bytes) → a.paths k ≡ b.paths k)
    → ((q : ℤ) → a.stacks q ≡ b.stacks q)
    → a ≡ b
Server-ext a b n p s = λ i. record { names = n i; paths = λ k. p k i; stacks = λ q. s q i }

-- a change of one stack
pub view-set_stack :
    (w w' : World) (pid : ℤ) (o : Option (List Bytes))
    → w'.tags ≡ w.tags
    → ((q : ℤ) → q ≢ pid → get_shell w' q ≡ get_shell w q)
    → Option.map stack_of (get_shell w' pid) ≡ o
    → view w' ≡ set_stack pid o (view w)
view-set_stack w w' pid o tags others own =
    Server-ext (view w') (set_stack pid o (view w)) (ap (λ ts. names ts.items) tags)
      (λ k. ap (λ ts. path_in ts k) tags) by_shell
  where
    by_shell :
        (q : ℤ)
        → Option.map stack_of (get_shell w' q)
          ≡ (if int_eq pid q then o else Option.map stack_of (get_shell w q))
    by_shell q = elim (Bool-cases (int_eq pid q)) [
      | inl same ↦ let is : pid ≡ q = (int_eq_iff pid q).0 same in rw (same, ← is) own
      | inr other ↦
          rw other (ap (Option.map stack_of) (others q (λ same. cc (int_eq_refl pid, other, same))))
    ]

-- a change of the tags
pub view-set_tags :
    (w w' : World) (ns : List Bytes) (paths : Bytes → Option Bytes)
    → w'.shells ≡ w.shells
    → names w'.tags.items ≡ ns
    → ((k : Bytes) → path_in w'.tags k ≡ paths k)
    → view w' ≡ record (view w) { names = ns; paths = paths }
view-set_tags w w' ns paths shells named bound =
    Server-ext (view w') (record (view w) { names = ns; paths = paths }) named bound
      (λ q. ap (λ l. Option.map stack_of (list_get_node compare_shell_pid l q)) shells)

-- writing the stack of a shell
pub view-put_actions :
    (w : World) (pid : ℤ) (s : Shell) (as' : ItemList Action)
    → get_shell w pid ≡ some s
    → view (put_actions w s as') ≡ set_stack pid (some (map (λ a. a.path) as'.items)) (view w)
view-put_actions w pid s as' e =
    view-set_stack w (put_actions w s as') pid _ (unfold put_shell in refl)
      (get-put_actions_ne w pid s e as') (ap (Option.map stack_of) (get-put_actions w pid s e as'))
