-- ===== src/Gossip.antt =====
-- Gossip upload: backend/internal/service/gossip/service.go.
pub mod Upload
pub mod Reported
