-- ===== src/Tests.antt =====
-- Runs of the daemon's commands at concrete inputs, and the theorems applied to them.
mod Data
mod Safety
mod Tags
mod Stack
mod Receive
mod Servers
mod Stale
mod Lists
mod Files
mod Sessions
mod Daemons
mod Client
