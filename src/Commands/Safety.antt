-- ===== src/Commands/Safety.antt =====
-- When a command returns: the conditions under which no handler of src/daemon/commands.c reads or
-- writes outside an object.
pub mod Handlers
pub mod Total
pub mod MissingArgs
use nav.Base.{ℕ, ◌≤◌, ◌<◌, Option, none, some, length, All}
use nav.Run.{Run}
use nav.Run.Ensures.{Returns}
use nav.Utils.Terminated.{IsTerminated}
use nav.Shell.{Shell}
use nav.World.{World}
use nav.Commands.Replies.{Args}
use nav.Commands.Tags.Listing.{tag_names, show_text}
use nav.Commands.Actions.Listing.{stack_text}
use nav.Commands.Dispatch.{CommandId, add, delete, get}

-- a shell whose actions can be listed and popped
pub record ShellFits (s : Shell) : Type 0 where
  pub listed : length (stack_text 1 s.actions.items) < 1024
  pub popped : All (λ a. length a.path ≤ 98) s.actions.items

-- the texts that the handlers print fit their buffers
pub record Fits (w : World) : Type 0 where
  pub names : length (tag_names w.tags.items) < 256
  pub lines : length (show_text w.tags.items) ≤ 2048
  pub targets : All (λ t. length t.path ≤ 98) w.tags.items
  pub stacks : All ShellFits w.shells.items

-- `add`, `delete` and `get` have arguments; arguments end with a NUL that has a newline right before it, or a
-- space or newline behind it
abbrev pub SafeArgs : Args → Option CommandId → Type 0
SafeArgs (some m) c = IsTerminated m
SafeArgs none (some add) = ⊥
SafeArgs none (some delete) = ⊥
SafeArgs none (some get) = ⊥
SafeArgs none c = Unit

abbrev pub Done : {A : Type 0} → Run A → Type 0
Done = Returns (λ _. Unit)
