-- ===== src/Manager.antt =====
-- cmd/main.go and the `SetupWithManager` functions: the flags, and how the process is put together
-- from the controllers and the webhook.
pub mod Flags
pub mod Framework
pub mod Controllers
pub mod Setup
pub mod Main
pub mod Rules
pub mod Registry
pub mod Facts
pub mod Starts
pub mod Serves
pub mod Parsed
