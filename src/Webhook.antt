-- ===== src/Webhook.antt =====
-- internal/webhook: the defaulting webhook that prepares an `RKE2Config` for the system agent.
pub mod Objects
pub mod Client
pub mod Script
pub mod Resources
pub mod Files
pub mod Default
pub mod Complete
pub mod Defaulted
pub mod Token
pub mod Served
pub mod Created
