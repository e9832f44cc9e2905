-- ===== src/Views.antt =====
-- auth_bridge/views.py, one module for each group of views.
pub mod Gate
pub mod Oidc
pub mod Redeem
pub mod Challenge
pub mod Email
pub mod Authorize
pub mod Passkeys
pub mod Graduation
pub mod Locker
pub mod Oauth
pub mod Examples
