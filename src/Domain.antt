-- ===== src/Domain.antt =====
-- app/domain: the pure rules of the release derivation.
pub mod BumpLevel
pub mod ChangeClassifier
pub mod DependencyGraph
pub mod BumpPropagation
pub mod ProductVersion
