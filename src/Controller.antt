-- ===== src/Controller.antt =====
-- internal/controller/agent_controller.go: the reconciliation of Agent resources.
pub mod Pods
pub mod Status
pub mod Services
pub mod Deletion
pub mod Reconcile
