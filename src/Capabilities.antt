-- ===== src/Capabilities.antt =====
-- capabilities/manifest.ts
pub mod Types
