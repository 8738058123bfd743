-- ===== src/Routing.antt =====
-- pkg/routing: how peers that hold a key are advertised and found.
pub mod Router
pub mod Contract
pub mod Memory
pub mod P2p
pub mod Bootstrap
