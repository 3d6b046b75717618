-- ===== src/Domain.antt =====
-- internal/domain: the types of jobs, nodes and builds, and the rules of their lifecycles.
pub mod Status
pub mod Types
pub mod ManagedArtifact
pub mod Builds
pub mod Validation
