-- ===== src/Tests.antt =====
-- Runs of the definitions at concrete inputs, and the theorems applied to them.
mod Caches
mod Stores
mod Graphs
mod Votes
mod Connections
mod Exchanges
mod Proxies
mod Events
mod Nodes
mod Timers
mod Sorts
mod Databases
