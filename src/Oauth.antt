-- ===== src/Oauth.antt =====
-- oauth/: the session cookie and its middleware, and the login flow with its state tokens.
pub mod Sessions
pub mod Access
pub mod Login
pub mod Flow
pub mod Userinfo
pub mod Example
pub mod Pages
mod Tests
