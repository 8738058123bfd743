-- ===== src/Registry.antt =====
-- pkg/registry: the registry that a node serves.
pub mod Distribution
pub mod Handlers
pub mod Setup
pub mod Requests
