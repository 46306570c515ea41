-- ===== src/Tests.antt =====
-- Runs of the development's theorems on concrete inputs, a module for each group of components.
mod Words
mod Forwards
mod Names
mod Leases
mod Clients
mod Scans
mod Exports
mod Peers
mod Bridges
mod Handshakes
