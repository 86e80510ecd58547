-- ===== src/Server/Isolation.antt =====
-- The stack of a shell over the requests of all shells: its own requests alone make it.
use mathlib.Core.Option
use nav.Base.{
  ◌≡◌, refl, ap, ◌∙◌, Bool, true, Option, none, some, List, [], ◌∷◌, Bytes, ℤ, int_eq, int_eq_iff,
  pos, if◌then◌else◌, Bool-cases, inl, inr, Option-cases,
}
use nav.Run.Ensures.{Returns, Returns-mono}
use nav.Utils.Words.{has_blank}
use nav.World.{World}
use nav.Commands.Replies.{get_shell}
use nav.Commands.Invariant.{IsWellFormed}
use nav.Loop.Buffer.{loop}
use nav.Server.{
  Server, Request, join, quit, pop_path, clear, bind, unbind, push_path, on_top, serve_shell, serve,
}
use nav.Server.View.{view, stack_of}
use nav.Server.Refines.{valid_in}
use nav.Server.Rounds.{Turn, serve_turn}
use nav.Server.Replay.{received, replay, CanReplay, SizesFit, Replays, loop-Replays}

-- what a request of the shell itself makes of its stack
abbrev pub own_stack : (Bytes → Bool) → Request → Option (List Bytes) → Option (List Bytes)
own_stack valid join none = some []
own_stack valid quit o = none
own_stack valid clear (some stack) = some []
own_stack valid pop_path (some (p ∷ rest)) = some rest
own_stack valid (push_path path) (some stack) =
    some (if valid path then if on_top path stack then stack else path ∷ stack else stack)
own_stack valid r o = o

-- the stack of the shell `q` behind the requests, of which it takes its own
abbrev pub stack_after : ℤ → List Turn → Option (List Bytes) → Option (List Bytes)
stack_after q [] o = o
stack_after q (t ∷ ts) o =
    stack_after q ts (if int_eq (pos t.pid) q then own_stack (valid_in t.os) t.request o else o)

module _ (valid : Bytes → Bool) (pid : ℤ) (a : Server) (q : ℤ) where
  -- the stacks behind a request
  abbrev Changes : Request → Option (List Bytes) → Type 0
  Changes r o =
      (serve_shell valid pid r o a).0.stacks q
      ≡ (if int_eq pid q then own_stack valid r o else a.stacks q)

  unchanged :
      (o : Option (List Bytes))
      → a.stacks pid ≡ o
      → a.stacks q ≡ (if int_eq pid q then o else a.stacks q)
  unchanged o e = elim (Bool-cases (int_eq pid q)) [
    | inl same ↦ let is : pid ≡ q = (int_eq_iff pid q).0 same in rw (same, ← is) e
    | inr other ↦ rw other refl
  ]

  unregistered-Changes : (r : Request) → a.stacks pid ≡ none → Changes r none
  unregistered-Changes join e = refl
  unregistered-Changes quit e = unchanged none e
  unregistered-Changes clear e = unchanged none e
  unregistered-Changes pop_path e = unchanged none e
  unregistered-Changes (push_path path) e = unchanged none e
  unregistered-Changes _ e = unchanged none e

  registered-Changes :
      (r : Request) (stack : List Bytes) → a.stacks pid ≡ some stack → Changes r (some stack)
  registered-Changes quit stack e = refl
  registered-Changes pop_path [] e = unchanged (some []) e
  registered-Changes pop_path (p ∷ rest) e = refl
  registered-Changes clear stack e = refl
  registered-Changes (bind tag path) stack e = elim (Bool-cases (valid path)) [
    | inl v ↦ rw v (unchanged (some stack) e)
    | inr v ↦ rw v (unchanged (some stack) e)
  ]
  registered-Changes (unbind tag) stack e = elim (Option-cases (a.paths tag)) [
    | inl u ↦ rw u (unchanged (some stack) e)
    | inr (path, u) ↦ rw u (unchanged (some stack) e)
  ]
  registered-Changes (push_path path) stack e = elim (Bool-cases (valid path)) [
    | inr v ↦ rw v (unchanged (some stack) e)
    | inl v ↦ elim (Bool-cases (on_top path stack)) [
      | inl top ↦ rw (v, top) (unchanged (some stack) e)
      | inr new ↦ rw (v, new) refl
    ]
  ]
  registered-Changes _ stack e = unchanged (some stack) e

  serve-stacks :
      (r : Request)
      → (serve valid pid r a).0.stacks q
        ≡ (if int_eq pid q then own_stack valid r (a.stacks pid) else a.stacks q)
  unfolding serve
  serve-stacks r = elim (Option-cases (a.stacks pid)) [
    | inl e ↦ rw e (unregistered-Changes r e)
    | inr (stack, e) ↦ rw e (registered-Changes r stack e)
  ]

-- The requests of other shells do not count.
replay-stack :
    (q : ℤ) (ts : List Turn) (a : Server) → (replay ts a).stacks q ≡ stack_after q ts (a.stacks q)
replay-stack q [] a = refl
replay-stack q (t ∷ ts) a =
    replay-stack q ts (serve_turn t a).0
    ∙ ap (stack_after q ts) (elim (Bool-cases (int_eq (pos t.pid) q)) [
      | inl same ↦
          let is : pos t.pid ≡ q = (int_eq_iff (pos t.pid) q).0 same in
          rw same (
            (rw same at (serve-stacks (valid_in t.os) (pos t.pid) a q t.request))
            ∙ ap (λ p. own_stack (valid_in t.os) t.request (a.stacks p)) is)
      | inr other ↦ rw other (rw other at (serve-stacks (valid_in t.os) (pos t.pid) a q t.request))
    ])

module _ (behind : Bytes) (blank : has_blank behind ≡ true) where
  -- Whatever the other shells ask for in between, the stack that a shell has behind the loop is what its
  -- own requests, in their order, make of the stack that it had: the loop returns with that stack, or with
  -- the shell not registered if these requests say so. The state is well-formed at first; each request can
  -- be served when it comes, in a message of at most 99 bytes, that of an `add` not shorter than those
  -- before it; and a space or newline is somewhere behind the receive buffer.
  pub loop-stack :
      (ts : List Turn) (w : World) (q : ℤ)
      → IsWellFormed w
      → CanReplay ts (view w)
      → SizesFit 0 ts
      → Returns
          (λ r.
            Option.map stack_of (get_shell r.1 q)
            ≡ stack_after q ts (Option.map stack_of (get_shell w q)))
          (loop behind (received ts) w)
  loop-stack ts w q v can sizes =
      Returns-mono (Replays w ts) _ (loop behind (received ts) w)
        (λ r h. ap (λ a. a.stacks q) h.held ∙ replay-stack q ts (view w))
        (loop-Replays behind blank ts w v can sizes)
