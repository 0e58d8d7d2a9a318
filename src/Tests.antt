-- ===== src/Tests.antt =====
-- Concrete runs: the theorems at inputs that exercise the code.
mod Domain
mod Stores
mod Releases
mod Services
mod Auth
mod Entry
mod Boot
mod Streams
mod Ledger
