-- ===== src/Tests.antt =====
-- Runs of the models on concrete data, a module per part of the program.
mod Data
mod Sessions
mod Roots
mod Keepers
mod Sources
mod Runs
mod Sockets
mod Recoveries
mod Commands
mod Clients
