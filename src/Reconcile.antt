-- ===== src/Reconcile.antt =====
-- Reconciliation: backend/internal/service/reconciliation/service.go over
-- backend/internal/repository/pgrepo/reconciliation.go.
pub mod Nightly
pub mod Clean
pub mod Drift
