-- ===== src/Workflows.antt =====
-- pkg/workflows: the references between the steps of a workflow, and their interpolation.
pub mod Items
pub mod Refs
pub mod Interpolation
pub mod EnvVars
pub mod Graph
pub mod Linked
pub mod Framed
pub mod Tests
pub mod GraphTests
