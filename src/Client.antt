-- ===== src/Client.antt =====
-- internal/cli/build: how a compiler wrapper gets its object file.
pub mod Remote
pub mod Retrying
pub mod Service
pub mod Laws
pub mod Unplaced
