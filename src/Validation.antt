-- ===== src/Validation.antt =====
-- internal/security/validation: what a request may say.

pub mod Windows
pub mod Sanitize
pub mod Laws
