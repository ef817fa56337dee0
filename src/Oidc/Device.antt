-- ===== src/Oidc/Device.antt =====
-- apps/server/src/features/oidc/device.ts: the device authorization grant. The children hold the
-- user codes (`Code`) and the store of pending requests (`Store`), with their laws.
pub mod Code
pub mod Store
