-- ===== src/Commands.antt =====
-- src/daemon/commands.c, a module for each group of commands, and the dispatch over all of them.
pub mod Replies
pub mod Invariant
pub mod Registry
pub mod Tags
pub mod Actions
pub mod Dispatch
pub mod Safety
pub mod Isolation
