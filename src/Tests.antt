-- ===== src/Tests.antt =====
-- Concrete runs of the theorems: a small installation, its requests, a store and a network.
pub mod Installation
pub mod Base64
mod Routes
mod Reads
pub mod Fetches
mod Served
mod Exchanges
mod Journals
pub mod Clients
pub mod Setups
mod Runtimes
