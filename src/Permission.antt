-- ===== src/Permission.antt =====
-- shared/src/permissions.ts: the authorization registry and what reads it.
mod Tests
pub mod Defs
pub mod Registry
pub mod Api
pub mod Seeds
pub mod Match
pub mod Matching
pub mod Requirements
pub mod Subject
