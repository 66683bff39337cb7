-- ===== src/Routing.antt =====
-- routing/router.py: which models may serve a request, and in which order they are tried.
-- The definitions are in Candidate, Order and Route; the other modules prove.
pub mod Candidate
pub mod Order
pub mod Route
pub mod Steps
pub mod Authorization
pub mod Capabilities
pub mod Offers
pub mod Lacking
pub mod Reported
pub mod Strict
pub mod Ranking
pub mod Explicit
pub mod Cost
pub mod Ordered
