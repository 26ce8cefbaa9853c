-- ===== src/Peer.antt =====
-- The peers of a client: client/internal/peer/manager.go and client/internal/peer/handshake.go.
pub mod Endpoint
pub mod Manager
pub mod Handshake
