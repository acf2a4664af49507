-- ===== src/Webauthn.antt =====
-- webauthn/: the user store and the two ceremonies.
pub mod Service
pub mod Setup
pub mod Handlers
pub mod Ceremonies
pub mod Responses
mod Tests
