-- ===== src/Core.antt =====
-- backend/pipa_core/core.py
pub mod Captions
pub mod Catalog
pub mod State
