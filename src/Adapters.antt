-- ===== src/Adapters.antt =====
-- adapters/: the contract of an adapter, the approval guard, the registry, and the file system adapter.
pub mod Types
pub mod Guard
pub mod Registry
pub mod Approval
pub mod Os
pub mod PathText
pub mod PathGuard
pub mod Filesystem
