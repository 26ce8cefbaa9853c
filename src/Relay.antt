-- ===== src/Relay.antt =====
-- The UDP relay of relay/internal.
pub mod Addr
pub mod Metrics
pub mod Sessions
pub mod Server
