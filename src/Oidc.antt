-- ===== src/Oidc.antt =====
-- apps/server/src/features/oidc: the stores of the OpenID Connect provider.
pub mod Clients
pub mod Claims
pub mod Front
pub mod Endpoint
pub mod Refresh
pub mod Device
