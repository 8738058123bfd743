-- ===== src/Tests.antt =====
-- The theorems at concrete inputs.
pub mod Shutdowns
mod Followed
pub mod Data
mod Images
mod Tracking
mod Paths
mod Mirrors
mod Rates
mod Walk
mod Merges
mod Memory
mod Config
mod Peers
mod Leaders
mod Store
mod Start
mod Throttled
mod Nodes
mod Requests
mod Provided
mod Delivered
mod Tags
