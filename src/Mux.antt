-- ===== src/Mux.antt =====
-- internal/mux: what a handler writes its answer to.
pub mod Response
pub mod Statuses
pub mod Server
