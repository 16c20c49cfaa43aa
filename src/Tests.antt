-- ===== src/Tests.antt =====
-- Concrete runs of the modelled code, with the numbers of `Fixed`.
pub mod Data
pub mod Components
pub mod Money
pub mod Jobs
pub mod Scripts
pub mod Tickets
pub mod Endings
pub mod Requests
pub mod Server
