-- ===== src/Queries.antt =====
-- app/queries: the queries that read and write the tables.
pub mod Versions
pub mod Dependencies
pub mod Bumps
pub mod Releases
pub mod ReleasesRead
pub mod Products
pub mod Timeline
